-- ===== src/Worker/Fit.antt =====
-- src/worker: the memory that the parts of a worker use stays within its capacity.
pub mod Kept
use h_axe_simulation.Prelude.{
  ℕ, ◌≡◌, refl, true, inl, inr, List, [], ◌∷◌, Outcome, ok, ◌>>=◌, Bool-cases, List-cases, arith,
  Ensures, Ensures-bind, Ensures-ok, Ensures-map, Ensures-if, if◌then◌else◌,
}
use h_axe_simulation.Prelude.Int.{ℤ}
use h_axe_simulation.Number.{Double, ◌⊕◌, ◌⊖◌, le, lt, zero_double, one_double, whole}
use h_axe_simulation.Resource.{
  ResourceType, cpu, memory, disk, network, ResourcePack, add, fit_in, by_index, set_index,
}
use h_axe_simulation.Job.{ShardTask}
use h_axe_simulation.Event.{Event}
use h_axe_simulation.Worker.State.{
  Worker, Shared, Channel, take_memory, release_memory, increase_memory_usage,
}
use h_axe_simulation.Worker.Cpu.{
  core_available, start_cpu_task, place_cpu_task, start_next_cpu_task, finish_cpu_task,
  decrease_cpu_usage, decrease_cpu_reservation, increase_cpu_usage,
}
use h_axe_simulation.Worker.Channel.{
  Lane, disk_lane, network_lane, channel_of, set_channel, slot_available, increase_usage,
  decrease_usage, decrease_reservation, run_task, start_channel_task, delete_running, resource_of,
  place_channel_task, update_worker, start_next_channel_task, finish_channel_task,
}
use h_axe_simulation.Worker.Machine.{
  place_by_type, finish_by_type, place_new_task, task_finish, note_usage, utilization_record,
  subgraph_finish, reserve, reservation_limit, init_worker,
}
use h_axe_simulation.Worker.Kept.{IsKept}

module _ {W : Type 0} ⦃d : Double W⦄ where
  -- A worker, alone or with what else a step returns, that uses no more memory than it has.
  abbrev pub IsFit : Worker W → Type 0
  IsFit w = le w.usage.memory_of w.capacity.memory_of ≡ true

  abbrev pub FitAfter : Worker W × Shared W × List (Event W) → Type 0
  FitAfter r = IsFit (r.0)

  abbrev FitStarted : Worker W × Shared W × List (Event W) × List (Event W) → Type 0
  FitStarted r = IsFit (r.0)

  set_channel-IsFit :
      (lane : Lane) (w : Worker W) (c : Channel W) → IsFit w → IsFit (set_channel lane w c)
  unfolding set_channel
  set_channel-IsFit disk_lane w c h = h
  set_channel-IsFit network_lane w c h = h

  increase_memory_usage-IsFit :
      (need : W) (w : Worker W) → Ensures IsFit (increase_memory_usage need w)
  unfolding increase_memory_usage
  increase_memory_usage-IsFit need w =
      elim (Bool-cases (le (w.usage.memory_of ⊕ need) w.capacity.memory_of)) [
        | inl a ↦ rw a a
        | inr a ↦ rw a tt
      ]

  take_memory-IsFit : (need : W) (w : Worker W) → IsFit w → Ensures IsFit (take_memory need w)
  unfolding take_memory
  take_memory-IsFit need w h =
      Ensures-if IsFit (lt zero_double need) (increase_memory_usage need w) (ok w)
        (λ e. increase_memory_usage-IsFit need w) (λ e. h)

  release_memory-IsFit : (need : W) (w : Worker W) → IsFit w → Ensures IsFit (release_memory need w)
  unfolding release_memory
  release_memory-IsFit need w h =
      Ensures-if IsFit (lt need zero_double) (increase_memory_usage need w) (ok w)
        (λ e. increase_memory_usage-IsFit need w) (λ e. h)

  start_cpu_task-FitAfter :
      (time : W) (task : ShardTask W) (w : Worker W) (s : Shared W)
      → IsFit w
      → Ensures FitAfter (start_cpu_task time task w s)
  unfolding start_cpu_task increase_cpu_usage
  start_cpu_task-FitAfter time task w s h =
      let w1 = increase_cpu_usage one_double w in
      Ensures-bind FitAfter (take_memory task.memory_need w1) _
        (λ w2 e. Ensures-ok IsFit _ (take_memory-IsFit task.memory_need w1 h) e)

  place_cpu_task-FitAfter :
      (time : W) (task : ShardTask W) (w : Worker W) (s : Shared W)
      → IsFit w
      → Ensures FitAfter (place_cpu_task time task w s)
  unfolding place_cpu_task
  place_cpu_task-FitAfter time task w s h = elim (List-cases w.cpu_queue) [
    | inr (q, qs, e) ↦ rw e h
    | inl e ↦ elim (Bool-cases (core_available w)) [
      | inl a ↦ rw (e, a) (start_cpu_task-FitAfter time task _ s h)
      | inr a ↦ rw (e, a) h
    ]
  ]

  start_next_cpu_task-FitAfter :
      (time : W) (tasks : List (ShardTask W)) (w : Worker W) (s : Shared W)
      → IsFit w
      → Ensures FitAfter (start_next_cpu_task time tasks w s)
  unfolding start_next_cpu_task
  start_next_cpu_task-FitAfter time [] w s h = h
  start_next_cpu_task-FitAfter time (task ∷ rest) w s h =
      Ensures-if FitAfter (core_available w) _ _
        (λ a.
          Ensures-bind FitAfter (start_cpu_task time task w s) _
            (λ r e. Ensures-ok FitAfter _ (start_cpu_task-FitAfter time task w s h) e))
        (λ a. h)

  decrease_cpu_reservation-IsFit :
      (resource : W) (w : Worker W) → IsFit w → IsFit (decrease_cpu_reservation resource w)
  unfolding decrease_cpu_reservation
  decrease_cpu_reservation-IsFit resource w h = ground arith

  finish_cpu_task-FitAfter :
      (time : W) (task : ShardTask W) (w : Worker W) (s : Shared W)
      → IsFit w
      → Ensures FitAfter (finish_cpu_task time task w s)
  unfolding finish_cpu_task decrease_cpu_usage
  finish_cpu_task-FitAfter time task w s h =
      Ensures-bind FitAfter (release_memory task.memory_need w) _ (λ w1 e.
        let fit = Ensures-ok IsFit _ (release_memory-IsFit task.memory_need w h) e in
        let w2 = decrease_cpu_usage one_double w1 in
        let w3 = decrease_cpu_reservation task.req w2 in
        start_next_cpu_task-FitAfter time w3.cpu_queue w3 s
          (decrease_cpu_reservation-IsFit task.req w2 fit))

  set_usage-IsFit :
      (lane : Lane) (w : Worker W) (v : W)
      → IsFit w
      → IsFit (record w { usage = set_index w.usage (resource_of lane) v })
  unfolding set_index
  set_usage-IsFit disk_lane w v h = h
  set_usage-IsFit network_lane w v h = h

  module _ (lane : Lane) where
    increase_usage-IsFit : (w : Worker W) → IsFit w → IsFit (increase_usage lane w)
    unfolding increase_usage
    increase_usage-IsFit w h = set_channel-IsFit lane _ _ (set_usage-IsFit lane w _ h)

    decrease_usage-IsFit : (w : Worker W) → IsFit w → IsFit (decrease_usage lane w)
    unfolding decrease_usage
    decrease_usage-IsFit w h = set_channel-IsFit lane _ _ (set_usage-IsFit lane w _ h)

    decrease_reservation-IsFit :
        (resource : W) (w : Worker W) → IsFit w → IsFit (decrease_reservation lane resource w)
    unfolding decrease_reservation
    decrease_reservation-IsFit resource w h = ground arith

    update_worker-FitAfter :
        (time : W) (w : Worker W) (s : Shared W) → IsFit w → FitAfter (update_worker lane time w s)
    unfolding update_worker
    update_worker-FitAfter time w s h = set_channel-IsFit lane w _ h

    start_channel_task-FitStarted :
        (time : W) (task : ShardTask W) (w : Worker W) (s : Shared W)
        → IsFit w
        → Ensures FitStarted (start_channel_task lane time task w s)
    unfolding start_channel_task run_task
    start_channel_task-FitStarted time task w s h =
        let w0 = increase_usage lane w in
        Ensures-bind FitStarted (take_memory task.memory_need w0) _ (λ w1 e.
          set_channel-IsFit lane w1 _ (
            Ensures-ok IsFit _ (take_memory-IsFit task.memory_need w0 (increase_usage-IsFit w h))
              e))

    place_channel_task-FitAfter :
        (time : W) (task : ShardTask W) (w : Worker W) (s : Shared W)
        → IsFit w
        → Ensures FitAfter (place_channel_task lane time task w s)
    unfolding place_channel_task
    place_channel_task-FitAfter time task w s h = elim (List-cases (channel_of lane w).queue) [
      | inr (q, qs, e) ↦ rw (e, place_channel_task) (set_channel-IsFit lane w _ h)
      | inl e ↦ elim (Bool-cases (slot_available (channel_of lane w))) [
        | inr a ↦ rw (e, place_channel_task, a) (set_channel-IsFit lane w _ h)
        | inl a ↦
            rw (e, place_channel_task, a)
              (Ensures-bind FitAfter (start_channel_task lane time task w s) _
                (λ r g. Ensures-ok FitStarted _ (start_channel_task-FitStarted time task w s h) g))
      ]
    ]

    start_next_channel_task-FitAfter :
        (time : W) (tasks : List (ShardTask W)) (w : Worker W) (s : Shared W)
        → IsFit w
        → Ensures FitAfter (start_next_channel_task lane time tasks w s)
    unfolding start_next_channel_task
    start_next_channel_task-FitAfter time [] w s h = update_worker-FitAfter time w s h
    start_next_channel_task-FitAfter time (task ∷ rest) w s h =
        Ensures-if FitAfter (slot_available (channel_of lane w)) _ _
          (λ a. Ensures-bind FitAfter (start_channel_task lane time task w s) _ (λ r e.
            set_channel-IsFit lane r.0 _
              (Ensures-ok FitStarted _ (start_channel_task-FitStarted time task w s h) e)))
          (λ a. update_worker-FitAfter time w s h)

    finish_channel_task-FitAfter :
        (time : W) (event_id : ℕ) (task : ShardTask W) (w : Worker W) (s : Shared W)
        → IsFit w
        → Ensures FitAfter (finish_channel_task lane time event_id task w s)
    unfolding finish_channel_task
    finish_channel_task-FitAfter time event_id task w s h =
        Ensures-bind FitAfter (release_memory task.memory_need w) _ (λ w1 e.
          let fit = Ensures-ok IsFit _ (release_memory-IsFit task.memory_need w h) e in
          let c = channel_of lane w1 in
          let rest = record c { running = delete_running event_id c.running } in
          let w2 = set_channel lane w1 rest in
          let w3 = decrease_reservation lane task.req (decrease_usage lane w2) in
          start_next_channel_task-FitAfter time (channel_of lane w3).queue w3 s (
            decrease_reservation-IsFit task.req (decrease_usage lane w2)
              (decrease_usage-IsFit w2 (set_channel-IsFit lane w1 rest fit))))

  pub place_by_type-FitAfter :
      (kind : ResourceType) (time : W) (task : ShardTask W) (w : Worker W) (s : Shared W)
      → IsFit w
      → Ensures FitAfter (place_by_type kind time task w s)
  unfolding place_by_type
  place_by_type-FitAfter cpu = place_cpu_task-FitAfter
  place_by_type-FitAfter memory = λ time task w s h. tt
  place_by_type-FitAfter disk = place_channel_task-FitAfter disk_lane
  place_by_type-FitAfter network = place_channel_task-FitAfter network_lane

  pub finish_by_type-FitAfter :
      (kind : ResourceType) (time : W) (event_id : ℕ) (task : ShardTask W) (w : Worker W)
      (s : Shared W)
      → IsFit w
      → Ensures FitAfter (finish_by_type kind time event_id task w s)
  unfolding finish_by_type
  finish_by_type-FitAfter cpu = λ time event_id. finish_cpu_task-FitAfter time
  finish_by_type-FitAfter memory = λ time event_id task w s h. tt
  finish_by_type-FitAfter disk = finish_channel_task-FitAfter disk_lane
  finish_by_type-FitAfter network = finish_channel_task-FitAfter network_lane

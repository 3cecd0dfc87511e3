-- ===== src/Worker/Frame.antt =====
-- src/worker: the parts of a worker leave `records_` of src/worker/worker_abstract.h alone.
use h_axe_simulation.Prelude.{
  ℕ, ◌≡◌, refl, ◌∙◌, inl, inr, List, [], ◌∷◌, Outcome, ok, Bool-cases, List-cases, arith, Ensures,
  Ensures-bind, Ensures-ok, Ensures-map, Ensures-if,
}
use h_axe_simulation.Number.{Double, ◌⊕◌, le, lt, zero_double, one_double}
use h_axe_simulation.Resource.{ResourceType, cpu, memory, disk, network}
use h_axe_simulation.Job.{ShardTask}
use h_axe_simulation.Event.{Event}
use h_axe_simulation.Worker.State.{
  Worker, Shared, take_memory, release_memory, increase_memory_usage,
}
use h_axe_simulation.Worker.Cpu.{
  core_available, start_cpu_task, place_cpu_task, start_next_cpu_task, finish_cpu_task,
  decrease_cpu_usage, decrease_cpu_reservation,
}
use h_axe_simulation.Worker.Channel.{
  Lane, disk_lane, network_lane, channel_of, set_channel, slot_available, increase_usage,
  decrease_usage, decrease_reservation, run_task, start_channel_task, delete_running,
  place_channel_task, update_worker, start_next_channel_task, finish_channel_task,
}
use h_axe_simulation.Worker.Machine.{place_by_type, finish_by_type}

module _ {W : Type 0} where
  -- A worker, alone or with what else a step returns, that has the records of another.
  abbrev Same : Worker W → Worker W → Type 0
  Same w v = v.records ≡ w.records

  abbrev pub SameAfter : Worker W → Worker W × Shared W × List (Event W) → Type 0
  SameAfter w r = r.0.records ≡ w.records

  abbrev SameStarted : Worker W → Worker W × Shared W × List (Event W) × List (Event W) → Type 0
  SameStarted w r = r.0.records ≡ w.records

  SameAfter-trans :
      (w v : Worker W) (m : Outcome (Worker W × Shared W × List (Event W)))
      → Same w v
      → Ensures (SameAfter v) m
      → Ensures (SameAfter w) m
  SameAfter-trans w v m h k = Ensures-map m k (λ r e. e ∙ h)

  set_channel-Same : (lane : Lane) (w : Worker W) (c : _) → Same w (set_channel lane w c)
  unfolding set_channel
  set_channel-Same disk_lane w c = refl
  set_channel-Same network_lane w c = refl

module _ {W : Type 0} ⦃d : Double W⦄ where
  increase_memory_usage-Same :
      (need : W) (w : Worker W) → Ensures (Same w) (increase_memory_usage need w)
  unfolding increase_memory_usage
  increase_memory_usage-Same need w =
      elim (Bool-cases (le (w.usage.memory_of ⊕ need) w.capacity.memory_of)) [
        | inl a ↦ rw a refl
        | inr a ↦ rw a tt
      ]

  take_memory-Same : (need : W) (w : Worker W) → Ensures (Same w) (take_memory need w)
  unfolding take_memory
  take_memory-Same need w =
      Ensures-if (Same w) (lt zero_double need) (increase_memory_usage need w) (ok w)
        (λ e. increase_memory_usage-Same need w) (λ e. refl)

  release_memory-Same : (need : W) (w : Worker W) → Ensures (Same w) (release_memory need w)
  unfolding release_memory
  release_memory-Same need w =
      Ensures-if (Same w) (lt need zero_double) (increase_memory_usage need w) (ok w)
        (λ e. increase_memory_usage-Same need w) (λ e. refl)

  start_cpu_task-Same :
      (time : W) (task : ShardTask W) (w : Worker W) (s : Shared W)
      → Ensures (SameAfter w) (start_cpu_task time task w s)
  unfolding start_cpu_task
  start_cpu_task-Same time task w s =
      Ensures-bind (SameAfter w) (take_memory _ _) _
        (λ w2 e. Ensures-ok (Same w) _ (take_memory-Same _ _) e)

  place_cpu_task-Same :
      (time : W) (task : ShardTask W) (w : Worker W) (s : Shared W)
      → Ensures (SameAfter w) (place_cpu_task time task w s)
  unfolding place_cpu_task
  place_cpu_task-Same time task w s = elim (List-cases w.cpu_queue) [
    | inr (q, qs, e) ↦ rw e refl
    | inl e ↦ elim (Bool-cases (core_available w)) [
      | inl a ↦ rw (e, a) (start_cpu_task-Same time task _ s)
      | inr a ↦ rw (e, a) refl
    ]
  ]

  start_next_cpu_task-Same :
      (time : W) (tasks : List (ShardTask W)) (w : Worker W) (s : Shared W)
      → Ensures (SameAfter w) (start_next_cpu_task time tasks w s)
  unfolding start_next_cpu_task
  start_next_cpu_task-Same time [] w s = refl
  start_next_cpu_task-Same time (task ∷ rest) w s =
      Ensures-if (SameAfter w) (core_available w) _ _
        (λ a.
          Ensures-bind (SameAfter w) (start_cpu_task time task w s) _
            (λ r e. Ensures-ok (SameAfter w) _ (start_cpu_task-Same time task w s) e))
        (λ a. refl)

  decrease_cpu_reservation-Same :
      (resource : W) (w : Worker W) → Same w (decrease_cpu_reservation resource w)
  unfolding decrease_cpu_reservation
  decrease_cpu_reservation-Same resource w = ground arith

  finish_cpu_task-Same :
      (time : W) (task : ShardTask W) (w : Worker W) (s : Shared W)
      → Ensures (SameAfter w) (finish_cpu_task time task w s)
  unfolding finish_cpu_task decrease_cpu_usage
  finish_cpu_task-Same time task w s =
      Ensures-bind (SameAfter w) (release_memory task.memory_need w) _ (λ w1 e.
        let same = Ensures-ok (Same w) _ (release_memory-Same task.memory_need w) e in
        let w2 = decrease_cpu_usage one_double w1 in
        let w3 = decrease_cpu_reservation task.req w2 in
        SameAfter-trans w w3 (start_next_cpu_task time w3.cpu_queue w3 s)
          (decrease_cpu_reservation-Same task.req w2 ∙ same)
          (start_next_cpu_task-Same time w3.cpu_queue w3 s))

  module _ (lane : Lane) where
    increase_usage-Same : (w : Worker W) → Same w (increase_usage lane w)
    unfolding increase_usage
    increase_usage-Same w = set_channel-Same lane _ _

    decrease_usage-Same : (w : Worker W) → Same w (decrease_usage lane w)
    unfolding decrease_usage
    decrease_usage-Same w = set_channel-Same lane _ _

    decrease_reservation-Same :
        (resource : W) (w : Worker W) → Same w (decrease_reservation lane resource w)
    unfolding decrease_reservation
    decrease_reservation-Same resource w = ground arith

    update_worker-Same :
        (time : W) (w : Worker W) (s : Shared W) → SameAfter w (update_worker lane time w s)
    unfolding update_worker
    update_worker-Same time w s = set_channel-Same lane w _

    start_channel_task-Same :
        (time : W) (task : ShardTask W) (w : Worker W) (s : Shared W)
        → Ensures (SameStarted w) (start_channel_task lane time task w s)
    unfolding start_channel_task run_task
    start_channel_task-Same time task w s =
        Ensures-bind (SameStarted w) (take_memory task.memory_need (increase_usage lane w)) _
          (λ w1 e.
            set_channel-Same lane w1 _
            ∙ Ensures-ok (Same (increase_usage lane w)) _ (take_memory-Same _ _) e
            ∙ increase_usage-Same w)

    place_channel_task-Same :
        (time : W) (task : ShardTask W) (w : Worker W) (s : Shared W)
        → Ensures (SameAfter w) (place_channel_task lane time task w s)
    unfolding place_channel_task
    place_channel_task-Same time task w s = elim (List-cases (channel_of lane w).queue) [
      | inr (q, qs, e) ↦ rw (e, place_channel_task) (set_channel-Same lane w _)
      | inl e ↦ elim (Bool-cases (slot_available (channel_of lane w))) [
        | inr a ↦ rw (e, place_channel_task, a) (set_channel-Same lane w _)
        | inl a ↦
            rw (e, place_channel_task, a)
              (Ensures-bind (SameAfter w) (start_channel_task lane time task w s) _
                (λ r g. Ensures-ok (SameStarted w) _ (start_channel_task-Same time task w s) g))
      ]
    ]

    start_next_channel_task-Same :
        (time : W) (tasks : List (ShardTask W)) (w : Worker W) (s : Shared W)
        → Ensures (SameAfter w) (start_next_channel_task lane time tasks w s)
    unfolding start_next_channel_task
    start_next_channel_task-Same time [] w s = update_worker-Same time w s
    start_next_channel_task-Same time (task ∷ rest) w s =
        Ensures-if (SameAfter w) (slot_available (channel_of lane w)) _ _
          (λ a. Ensures-bind (SameAfter w) (start_channel_task lane time task w s) _ (λ r e.
            set_channel-Same lane r.0 _
            ∙ Ensures-ok (SameStarted w) _ (start_channel_task-Same time task w s) e))
          (λ a. update_worker-Same time w s)

    finish_channel_task-Same :
        (time : W) (event_id : ℕ) (task : ShardTask W) (w : Worker W) (s : Shared W)
        → Ensures (SameAfter w) (finish_channel_task lane time event_id task w s)
    unfolding finish_channel_task
    finish_channel_task-Same time event_id task w s =
        Ensures-bind (SameAfter w) (release_memory task.memory_need w) _ (λ w1 e.
          let same = Ensures-ok (Same w) _ (release_memory-Same task.memory_need w) e in
          let c = channel_of lane w1 in
          let w2 = set_channel lane w1 (record c { running = delete_running event_id c.running }) in
          let w3 = decrease_reservation lane task.req (decrease_usage lane w2) in
          let given =
            decrease_reservation-Same task.req (decrease_usage lane w2)
            ∙ decrease_usage-Same w2
            ∙ set_channel-Same lane w1 (record c { running = delete_running event_id c.running })
            ∙ same in
          let tasks = (channel_of lane w3).queue in
          SameAfter-trans w w3 (start_next_channel_task lane time tasks w3 s) given
            (start_next_channel_task-Same time tasks w3 s))

  pub place_by_type-Same :
      (kind : ResourceType) (time : W) (task : ShardTask W) (w : Worker W) (s : Shared W)
      → Ensures (SameAfter w) (place_by_type kind time task w s)
  unfolding place_by_type
  place_by_type-Same cpu time task w s = place_cpu_task-Same time task w s
  place_by_type-Same memory time task w s = tt
  place_by_type-Same disk time task w s = place_channel_task-Same disk_lane time task w s
  place_by_type-Same network time task w s = place_channel_task-Same network_lane time task w s

  pub finish_by_type-Same :
      (kind : ResourceType) (time : W) (event_id : ℕ) (task : ShardTask W) (w : Worker W)
      (s : Shared W)
      → Ensures (SameAfter w) (finish_by_type kind time event_id task w s)
  unfolding finish_by_type
  finish_by_type-Same cpu time event_id task w s = finish_cpu_task-Same time task w s
  finish_by_type-Same memory time event_id task w s = tt
  finish_by_type-Same disk time event_id task w s =
      finish_channel_task-Same disk_lane time event_id task w s
  finish_by_type-Same network time event_id task w s =
      finish_channel_task-Same network_lane time event_id task w s

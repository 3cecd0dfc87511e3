-- ===== src/Worker/Numbers.antt =====
-- src/event/event.h and src/worker: the numbers of the events that a call of a worker returns.
use h_axe_simulation.Prelude.{
  ℕ, ◌≤◌, inl, inr, List, [], ◌∷◌, ◌++◌, Ensures, Ensures-bind, Ensures-ok, List-cases, arith,
  Bool-cases,
}
use h_axe_simulation.Prelude.Int.{ℤ, ◌+ℤ◌}
use h_axe_simulation.Number.{Double}
use h_axe_simulation.Resource.{ResourceType, cpu, memory, disk, network}
use h_axe_simulation.Job.{ShardTask}
use h_axe_simulation.Event.{Event, EventType, Members}
use h_axe_simulation.Worker.State.{
  Worker, Shared, RunningTask, finish_event, new_event, take_memory, release_memory,
}
use h_axe_simulation.Worker.Cpu.{
  core_available, start_cpu_task, place_cpu_task, start_next_cpu_task, finish_cpu_task,
}
use h_axe_simulation.Worker.Channel.{
  Lane, disk_lane, network_lane, update_record, update_running, update_channel, add_running,
  run_task, start_channel_task, place_channel_task, update_worker, start_next_channel_task,
  finish_channel_task, channel_of, slot_available,
}
use h_axe_simulation.Worker.Channel.Update.{count, event_ids, event_ids-append, within}
use h_axe_simulation.Worker.Machine.{
  place_by_type, finish_by_type, place_new_task, task_finish, note_usage,
}

-- The count of events went from `a` to `b`, and of the events that came each has a number of its own
-- between the two.
pub record IsNumbered {W : Type 0} (a b : ℕ) (events : List (Event W)) : Type 0 where
  pub grows : a ≤ b
  pub once : (n : ℕ) → count n (event_ids events) ≤ within a b n

module _ {W : Type 0} where
  pub IsNumbered-none : {a b : ℕ} → a ≤ b → IsNumbered {W = W} a b []
  IsNumbered-none h = record { grows = h; once = λ n. ground arith }

  pub IsNumbered-append :
      {a b c : ℕ} {xs ys : List (Event W)}
      → IsNumbered a b xs
      → IsNumbered b c ys
      → IsNumbered a c (xs ++ ys)
  IsNumbered-append {xs} {ys} h k = record {
    grows = omega (arith, h.grows, k.grows);
    once = λ n. ground (arith, event_ids-append n xs ys, h.once n, k.once n, h.grows, k.grows);
  }

  -- Events that are dropped use their numbers up.
  pub IsNumbered-left :
      {a b c : ℕ} {xs ys : List (Event W)}
      → IsNumbered a b xs
      → IsNumbered b c ys
      → IsNumbered a c xs
  IsNumbered-left {xs} h k = record {
    grows = omega (arith, h.grows, k.grows);
    once = λ n. ground (arith, h.once n, h.grows, k.grows);
  }

  -- A result that shares the count of events.
  abbrev pub Numbers : {X : Type 0} → Shared W → X × Shared W × List (Event W) → Type 0
  Numbers s r = IsNumbered s.event_num r.1.event_num r.2

module _ {W : Type 0} ⦃d : Double W⦄ where
  pub new_event-IsNumbered :
      (t : EventType) (time : W) (priority principal : ℤ) (m : Members W) (s : Shared W)
      → let (event, s') = new_event t time priority principal m s in
        IsNumbered s.event_num s'.event_num (event ∷ [])
  unfolding new_event
  new_event-IsNumbered t time priority principal m s = record {
    grows = omega arith;
    once = λ n. ground arith;
  }

  update_record-Numbers :
      (time bandwidth : W) (r : RunningTask W) (s : Shared W)
      → Numbers s (update_record time bandwidth r s)
  unfolding update_record finish_event
  update_record-Numbers time bandwidth r s = record {
    grows = ground arith;
    once = λ n. ground arith;
  }

  update_running-Numbers :
      (time bandwidth : W) (rs : List (RunningTask W)) (s : Shared W)
      → Numbers s (update_running time bandwidth rs s)
  unfolding update_running
  update_running-Numbers time bandwidth [] s = IsNumbered-none (omega arith)
  update_running-Numbers time bandwidth (r ∷ rs) s =
      IsNumbered-append (update_record-Numbers time bandwidth r s)
        (update_running-Numbers time bandwidth rs (update_record time bandwidth r s).1)

  start_cpu_task-Numbers :
      (time : W) (task : ShardTask W) (w : Worker W) (s : Shared W)
      → Ensures (Numbers s) (start_cpu_task time task w s)
  unfolding start_cpu_task finish_event
  start_cpu_task-Numbers time task w s =
      Ensures-bind (Numbers s) (take_memory _ _) _ (λ w2 e. new_event-IsNumbered _ _ _ _ _ s)

  place_cpu_task-Numbers :
      (time : W) (task : ShardTask W) (w : Worker W) (s : Shared W)
      → Ensures (Numbers s) (place_cpu_task time task w s)
  unfolding place_cpu_task
  place_cpu_task-Numbers time task w s = elim (List-cases w.cpu_queue) [
    | inr (q, qs, e) ↦ rw e (IsNumbered-none (omega arith))
    | inl e ↦ elim (Bool-cases (core_available w)) [
      | inl a ↦ rw (e, a) (start_cpu_task-Numbers time task _ s)
      | inr a ↦ rw (e, a) (IsNumbered-none (omega arith))
    ]
  ]

  start_next_cpu_task-Numbers :
      (time : W) (tasks : List (ShardTask W)) (w : Worker W) (s : Shared W)
      → Ensures (Numbers s) (start_next_cpu_task time tasks w s)
  unfolding start_next_cpu_task
  start_next_cpu_task-Numbers time [] w s = IsNumbered-none (omega arith)
  start_next_cpu_task-Numbers time (task ∷ rest) w s = elim (Bool-cases (core_available w)) [
    | inl a ↦ rw a (
        Ensures-bind (Numbers s) (start_cpu_task time task w s) _
          (λ r e. Ensures-ok (Numbers s) _ (start_cpu_task-Numbers time task w s) e))
    | inr a ↦ rw a (IsNumbered-none (omega arith))
  ]

  finish_cpu_task-Numbers :
      (time : W) (task : ShardTask W) (w : Worker W) (s : Shared W)
      → Ensures (Numbers s) (finish_cpu_task time task w s)
  unfolding finish_cpu_task
  finish_cpu_task-Numbers time task w s =
      Ensures-bind (Numbers s) (release_memory _ _) _
        (λ w1 e. start_next_cpu_task-Numbers time _ _ s)

  module _ (lane : Lane) (time : W) where
    -- What starts a task makes: its own event, and then those of the tasks whose end moves.
    abbrev IsStarted : Shared W → Worker W × Shared W × List (Event W) × List (Event W) → Type 0
    IsStarted s r =
        IsNumbered s.event_num r.1.event_num (r.2 ++ r.3) × IsNumbered s.event_num r.1.event_num r.2

    start_channel_task-IsStarted :
        (task : ShardTask W) (w : Worker W) (s : Shared W)
        → Ensures (IsStarted s) (start_channel_task lane time task w s)
    unfolding start_channel_task finish_event run_task add_running update_channel
    start_channel_task-IsStarted task w s = Ensures-bind (IsStarted s) (take_memory _ _) _ (λ w1 e.
        let own = new_event-IsNumbered _ _ _ _ _ s in
        let moved = update_running-Numbers _ _ _ _ in
        (IsNumbered-append own moved, IsNumbered-left own moved))

    place_channel_task-Numbers :
        (task : ShardTask W) (w : Worker W) (s : Shared W)
        → Ensures (Numbers s) (place_channel_task lane time task w s)
    unfolding place_channel_task slot_available ◌+ℤ◌
    place_channel_task-Numbers task w s = elim (List-cases (channel_of lane w).queue) [
      | inr (q, qs, e) ↦ rw (e, place_channel_task) (IsNumbered-none (omega arith))
      | inl e ↦ elim (Bool-cases (slot_available (channel_of lane w))) [
        | inr a ↦ rw (e, place_channel_task, a) (IsNumbered-none (omega arith))
        | inl a ↦
            rw (e, place_channel_task, a)
              (Ensures-bind (Numbers s) (start_channel_task lane time task w s) _
                (λ r g. (Ensures-ok (IsStarted s) _ (start_channel_task-IsStarted task w s) g).0))
      ]
    ]

    start_next_channel_task-Numbers :
        (tasks : List (ShardTask W)) (w : Worker W) (s : Shared W)
        → Ensures (Numbers s) (start_next_channel_task lane time tasks w s)
    unfolding start_next_channel_task update_worker update_channel
    start_next_channel_task-Numbers [] w s = update_running-Numbers _ _ _ s
    start_next_channel_task-Numbers (task ∷ rest) w s =
        elim (Bool-cases (slot_available (channel_of lane w))) [
          | inr a ↦ rw a (update_running-Numbers _ _ _ s)
          | inl a ↦ rw a (
              Ensures-bind (Numbers s) (start_channel_task lane time task w s) _
                (λ r g. (Ensures-ok (IsStarted s) _ (start_channel_task-IsStarted task w s) g).1))
        ]

    finish_channel_task-Numbers :
        (event_id : ℕ) (task : ShardTask W) (w : Worker W) (s : Shared W)
        → Ensures (Numbers s) (finish_channel_task lane time event_id task w s)
    unfolding finish_channel_task
    finish_channel_task-Numbers event_id task w s =
        Ensures-bind (Numbers s) (release_memory _ _) _
          (λ w1 e. start_next_channel_task-Numbers _ _ s)

  place_by_type-Numbers :
      (kind : ResourceType) (time : W) (task : ShardTask W) (w : Worker W) (s : Shared W)
      → Ensures (Numbers s) (place_by_type kind time task w s)
  unfolding place_by_type
  place_by_type-Numbers cpu time task w s = place_cpu_task-Numbers time task w s
  place_by_type-Numbers memory time task w s = tt
  place_by_type-Numbers disk time task w s = place_channel_task-Numbers disk_lane time task w s
  place_by_type-Numbers network time task w s =
      place_channel_task-Numbers network_lane time task w s

  pub place_new_task-Numbers :
      (time : W) (task : ShardTask W) (w : Worker W) (s : Shared W)
      → Ensures (Numbers s) (place_new_task time task w s)
  unfolding place_new_task
  place_new_task-Numbers time task w s =
      Ensures-bind (Numbers s) (place_by_type task.resource_type time task w s) _
        (λ (w1, s1, events) e. Ensures-bind (Numbers s) (note_usage time w1) _ (λ w2 g.
          Ensures-ok (Numbers s) _ (place_by_type-Numbers task.resource_type time task w s) e))

  finish_by_type-Numbers :
      (kind : ResourceType) (time : W) (event_id : ℕ) (task : ShardTask W) (w : Worker W)
      (s : Shared W)
      → Ensures (Numbers s) (finish_by_type kind time event_id task w s)
  unfolding finish_by_type
  finish_by_type-Numbers cpu time event_id task w s = finish_cpu_task-Numbers time task w s
  finish_by_type-Numbers memory time event_id task w s = tt
  finish_by_type-Numbers disk time event_id task w s =
      finish_channel_task-Numbers disk_lane time event_id task w s
  finish_by_type-Numbers network time event_id task w s =
      finish_channel_task-Numbers network_lane time event_id task w s

  pub task_finish-Numbers :
      (time : W) (event_id : ℕ) (task : ShardTask W) (w : Worker W) (s : Shared W)
      → Ensures (Numbers s) (task_finish time event_id task w s)
  unfolding task_finish
  task_finish-Numbers time event_id task w s =
      Ensures-bind (Numbers s) (finish_by_type task.resource_type time event_id task w s) _
        (λ (w1, s1, events) e. Ensures-bind (Numbers s) (note_usage time w1) _ (λ w2 g.
          Ensures-ok (Numbers s) _
            (finish_by_type-Numbers task.resource_type time event_id task w s) e))

-- ===== src/Worker/Events.antt =====
-- src/worker: the events that the calls of a worker return.
use h_axe_simulation.Prelude.{
  ℕ, ◌≡◌, refl, inl, inr, List, [], ◌∷◌, All, All-append, ok, Outcome, ◌>>=◌, Bool-cases,
  List-cases, Ensures, Ensures-bind, Ensures-ok, Ensures-if,
}
use h_axe_simulation.Number.{Double, close}
use h_axe_simulation.Resource.{ResourceType, cpu, memory, disk, network}
use h_axe_simulation.Job.{ShardTask}
use h_axe_simulation.Event.{Event, EventType, Members}
use h_axe_simulation.Worker.State.{
  Worker, Shared, RunningTask, take_memory, release_memory, finish_event,
}
use h_axe_simulation.Worker.Cpu.{
  core_available, start_cpu_task, place_cpu_task, start_next_cpu_task, finish_cpu_task,
}
use h_axe_simulation.Worker.Channel.{
  Lane, disk_lane, network_lane, channel_of, slot_available, set_channel, delete_running,
  decrease_usage, decrease_reservation, run_task, add_running, update_channel, update_record,
  update_running, start_channel_task, place_channel_task, update_worker, start_next_channel_task,
  finish_channel_task,
}
use h_axe_simulation.Worker.Machine.{
  place_by_type, finish_by_type, place_new_task, task_finish, note_usage,
}

module _ {W : Type 0} where
  -- The end of a task, whose principal is the number of its job.
  abbrev pub IsFinish : Event W → Type 0
  IsFinish e =
      (task : ShardTask W) × (e.event_type ≡ EventType.task_finish)
      × (e.principal ≡ task.job_id)
      × (e.members ≡ Members.finished_task task)

  abbrev pub Finishes : Worker W × Shared W × List (Event W) → Type 0
  Finishes r = All IsFinish r.2

  -- The events of a start in their two parts.
  abbrev FinishesStarted : Worker W × Shared W × List (Event W) × List (Event W) → Type 0
  FinishesStarted r = All IsFinish r.2 × All IsFinish r.3

module _ {W : Type 0} ⦃d : Double W⦄ where
  update_record-Finishes :
      (time bandwidth : W) (r : RunningTask W) (s : Shared W)
      → All IsFinish ((update_record time bandwidth r s).2)
  unfolding update_record finish_event
  update_record-Finishes time bandwidth r s =
      elim (Bool-cases (close r.last_check_bandwidth bandwidth)) [
        | inl a ↦ rw a tt
        | inr a ↦ rw a ((r.shard_task, refl, refl, refl), tt)
      ]

  update_running-Finishes :
      (time bandwidth : W) (rs : List (RunningTask W)) (s : Shared W)
      → All IsFinish ((update_running time bandwidth rs s).2)
  unfolding update_running
  update_running-Finishes time bandwidth [] s = tt
  update_running-Finishes time bandwidth (r ∷ rs) s =
      All-append IsFinish (update_record time bandwidth r s).2 _
        (update_record-Finishes time bandwidth r s)
        (update_running-Finishes time bandwidth rs (update_record time bandwidth r s).1)

  start_cpu_task-Finishes :
      (time : W) (task : ShardTask W) (w : Worker W) (s : Shared W)
      → Ensures Finishes (start_cpu_task time task w s)
  unfolding start_cpu_task finish_event
  start_cpu_task-Finishes time task w s =
      Ensures-bind Finishes (take_memory _ _) _ (λ w2 e. ((task, refl, refl, refl), tt))

  place_cpu_task-Finishes :
      (time : W) (task : ShardTask W) (w : Worker W) (s : Shared W)
      → Ensures Finishes (place_cpu_task time task w s)
  unfolding place_cpu_task
  place_cpu_task-Finishes time task w s = elim (List-cases w.cpu_queue) [
    | inr (q, qs, e) ↦ rw e tt
    | inl e ↦ elim (Bool-cases (core_available w)) [
      | inl a ↦ rw (e, a) (start_cpu_task-Finishes time task _ s)
      | inr a ↦ rw (e, a) tt
    ]
  ]

  start_next_cpu_task-Finishes :
      (time : W) (tasks : List (ShardTask W)) (w : Worker W) (s : Shared W)
      → Ensures Finishes (start_next_cpu_task time tasks w s)
  unfolding start_next_cpu_task
  start_next_cpu_task-Finishes time [] w s = tt
  start_next_cpu_task-Finishes time (task ∷ rest) w s =
      Ensures-if Finishes (core_available w) _ _
        (λ a.
          Ensures-bind Finishes (start_cpu_task time task w s) _
            (λ r e. Ensures-ok Finishes _ (start_cpu_task-Finishes time task w s) e))
        (λ a. tt)

  finish_cpu_task-Finishes :
      (time : W) (task : ShardTask W) (w : Worker W) (s : Shared W)
      → Ensures Finishes (finish_cpu_task time task w s)
  unfolding finish_cpu_task
  finish_cpu_task-Finishes time task w s =
      Ensures-bind Finishes (release_memory _ _) _ (λ w1 e. start_next_cpu_task-Finishes time _ _ s)

  module _ (lane : Lane) (time : W) where
    start_channel_task-FinishesStarted :
        (task : ShardTask W) (w : Worker W) (s : Shared W)
        → Ensures FinishesStarted (start_channel_task lane time task w s)
    unfolding start_channel_task finish_event run_task add_running update_channel
    start_channel_task-FinishesStarted task w s =
        Ensures-bind FinishesStarted (take_memory _ _) _
          (λ w1 e. (((task, refl, refl, refl), tt), update_running-Finishes _ _ _ _))

    place_channel_task-Finishes :
        (task : ShardTask W) (w : Worker W) (s : Shared W)
        → Ensures Finishes (place_channel_task lane time task w s)
    unfolding place_channel_task
    place_channel_task-Finishes task w s = elim (List-cases (channel_of lane w).queue) [
      | inr (q, qs, e) ↦ rw (e, place_channel_task) tt
      | inl e ↦ elim (Bool-cases (slot_available (channel_of lane w))) [
        | inr a ↦ rw (e, place_channel_task, a) tt
        | inl a ↦
            rw (e, place_channel_task, a)
              (Ensures-bind Finishes (start_channel_task lane time task w s) _ (λ r g.
                let (own, moved) =
                  Ensures-ok FinishesStarted _ (start_channel_task-FinishesStarted task w s) g in
                All-append IsFinish r.2 r.3 own moved))
      ]
    ]

    start_next_channel_task-Finishes :
        (tasks : List (ShardTask W)) (w : Worker W) (s : Shared W)
        → Ensures Finishes (start_next_channel_task lane time tasks w s)
    unfolding start_next_channel_task update_worker update_channel
    start_next_channel_task-Finishes [] w s = update_running-Finishes _ _ _ s
    start_next_channel_task-Finishes (task ∷ rest) w s =
        elim (Bool-cases (slot_available (channel_of lane w))) [
          | inr a ↦ rw a (update_running-Finishes _ _ _ s)
          | inl a ↦ rw a (
              Ensures-bind Finishes (start_channel_task lane time task w s) _ (λ r g.
                (Ensures-ok FinishesStarted _ (start_channel_task-FinishesStarted task w s) g).0))
        ]

    finish_channel_task-Finishes :
        (event_id : ℕ) (task : ShardTask W) (w : Worker W) (s : Shared W)
        → Ensures Finishes (finish_channel_task lane time event_id task w s)
    unfolding finish_channel_task
    finish_channel_task-Finishes event_id task w s =
        Ensures-bind Finishes (release_memory _ _) _ (λ w1 e.
          let c = channel_of lane w1 in
          let w2 = set_channel lane w1 (record c { running = delete_running event_id c.running }) in
          let w3 = decrease_reservation lane task.req (decrease_usage lane w2) in
          start_next_channel_task-Finishes (channel_of lane w3).queue w3 s)

  place_by_type-Finishes :
      (kind : ResourceType) (time : W) (task : ShardTask W) (w : Worker W) (s : Shared W)
      → Ensures Finishes (place_by_type kind time task w s)
  unfolding place_by_type
  place_by_type-Finishes cpu = place_cpu_task-Finishes
  place_by_type-Finishes memory = λ time task w s. tt
  place_by_type-Finishes disk = place_channel_task-Finishes disk_lane
  place_by_type-Finishes network = place_channel_task-Finishes network_lane

  finish_by_type-Finishes :
      (kind : ResourceType) (time : W) (event_id : ℕ) (task : ShardTask W) (w : Worker W)
      (s : Shared W)
      → Ensures Finishes (finish_by_type kind time event_id task w s)
  unfolding finish_by_type
  finish_by_type-Finishes cpu = λ time event_id. finish_cpu_task-Finishes time
  finish_by_type-Finishes memory = λ time event_id task w s. tt
  finish_by_type-Finishes disk = finish_channel_task-Finishes disk_lane
  finish_by_type-Finishes network = finish_channel_task-Finishes network_lane

  noted-Finishes :
      (time : W) (m : Outcome (Worker W × Shared W × List (Event W)))
      → Ensures Finishes m
      → Ensures Finishes (do (w1, s', events) ← m; w2 ← note_usage time w1; ok (w2, s', events))
  noted-Finishes time m h = Ensures-bind Finishes m _ (λ (w1, s1, events) e.
      Ensures-bind Finishes (note_usage time w1) _ (λ w2 g. Ensures-ok Finishes m h e))

  pub place_new_task-Finishes :
      (time : W) (task : ShardTask W) (w : Worker W) (s : Shared W)
      → Ensures Finishes (place_new_task time task w s)
  unfolding place_new_task
  place_new_task-Finishes time task w s =
      noted-Finishes time _ (place_by_type-Finishes task.resource_type time task w s)

  pub task_finish-Finishes :
      (time : W) (event_id : ℕ) (task : ShardTask W) (w : Worker W) (s : Shared W)
      → Ensures Finishes (task_finish time event_id task w s)
  unfolding task_finish
  task_finish-Finishes time event_id task w s =
      noted-Finishes time _ (finish_by_type-Finishes task.resource_type time event_id task w s)

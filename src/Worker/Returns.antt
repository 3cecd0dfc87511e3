-- ===== src/Worker/Returns.antt =====
-- src/worker: when placing a task does not abort.
use h_axe_simulation.Prelude.{
  ◌≡◌, ◌≢◌, refl, sym, ap, ◌∙◌, Fault, fail, true, false, inl, inr, ◌⊎◌, List, [], ◌∷◌, ◌++◌,
  Outcome, ok, arith, Bool-cases, List-cases, Ensures, Ensures-bind, Ensures-ok,
}
use h_axe_simulation.Number.{Double, ◌⊕◌, lt, le, zero_double, one_double}
use h_axe_simulation.Job.{ShardTask}
use h_axe_simulation.Resource.{set_index}
use h_axe_simulation.Event.{Event, EventType, Members}
use h_axe_simulation.Worker.State.{
  Worker, Shared, Channel, take_memory, increase_memory_usage, finish_event,
}
use h_axe_simulation.Worker.Cpu.{core_available, increase_cpu_usage, start_cpu_task, place_cpu_task}
use h_axe_simulation.Worker.Channel.{
  Lane, channel_of, slot_available, set_channel, increase_usage, start_channel_task,
  place_channel_task, run_task, add_running, update_channel,
}
use h_axe_simulation.Worker.Channel.Account.{
  take_memory_frame, channel-increase_usage, channel-set_channel,
}
use h_axe_simulation.Worker.Channel.Settled.{run_task_lem}

returned : {A : Type 0} (m : Outcome A) → ((why : Fault) → m ≢ fail why) → (a : A) × (m ≡ ok a)
returned (ok a) h = (a, refl)
returned (fail why) h = absurd (h why refl)

module _ {W : Type 0} ⦃d : Double W⦄ where
  -- A need for memory is not above zero, or the capacity has room for it.
  abbrev pub HasRoom : W → Worker W → Type 0
  HasRoom need w =
      (lt zero_double need ≡ false) ⊎ (le (w.usage.memory_of ⊕ need) w.capacity.memory_of ≡ true)

  take_memory-returns :
      (need : W) (w : Worker W) (why : Fault) → HasRoom need w → take_memory need w ≢ fail why
  unfolding take_memory increase_memory_usage
  take_memory-returns need w why h e = ground arith

  start_cpu_task-returns :
      (time : W) (task : ShardTask W) (w : Worker W) (s : Shared W) (why : Fault)
      → HasRoom task.memory_need w
      → start_cpu_task time task w s ≢ fail why
  unfolding start_cpu_task increase_cpu_usage take_memory increase_memory_usage
  start_cpu_task-returns time task w s why h e = ground arith

  place_cpu_task-returns :
      (time : W) (task : ShardTask W) (w : Worker W) (s : Shared W) (why : Fault)
      → HasRoom task.memory_need w
      → place_cpu_task time task w s ≢ fail why
  unfolding place_cpu_task
  place_cpu_task-returns time task w s why h e =
      let starts = start_cpu_task-returns time task w s why h in grind arith

  start_channel_task-returns :
      (lane : Lane) (time : W) (task : ShardTask W) (w : Worker W) (s : Shared W) (why : Fault)
      → HasRoom task.memory_need w
      → start_channel_task lane time task w s ≢ fail why
  unfolding start_channel_task increase_usage take_memory increase_memory_usage set_channel
      set_index
  start_channel_task-returns Lane.disk_lane time task w s why h e = ground arith
  start_channel_task-returns Lane.network_lane time task w s why h e = ground arith

  place_channel_task-returns :
      (lane : Lane) (time : W) (task : ShardTask W) (w : Worker W) (s : Shared W) (why : Fault)
      → HasRoom task.memory_need w
      → place_channel_task lane time task w s ≢ fail why
  unfolding place_channel_task
  place_channel_task-returns lane time task w s why h e =
      let starts = start_channel_task-returns lane time task w s why h in grind arith

module _ {W : Type 0} where
  -- The first event is the end of the task, with the number of its job as principal.
  abbrev EndsFirst : ShardTask W → List (Event W) → Type 0
  EndsFirst task [] = ⊥
  EndsFirst task (e ∷ es) =
      (e.event_type ≡ EventType.task_finish)
      × (e.principal ≡ task.job_id)
      × (e.members ≡ Members.finished_task task)

  EndsFirst-append :
      (task : ShardTask W) (es fs : List (Event W)) → EndsFirst task es → EndsFirst task (es ++ fs)
  EndsFirst-append task [] fs h = absurd h
  EndsFirst-append task (e ∷ es) fs h = h

  -- A task either waits behind those that wait, without an event, or starts where none waits.
  abbrev pub IsTaken : ShardTask W → (before after : List (ShardTask W)) → List (Event W) → Type 0
  IsTaken task before after events =
      ((after ≡ before ++ task ∷ []) × (events ≡ []))
      ⊎ ((before ≡ []) × (after ≡ []) × EndsFirst task events)

module _ {W : Type 0} ⦃d : Double W⦄ where
  -- The outcome on the cores and on a channel of worker `w`.
  abbrev pub OnCores : ShardTask W → Worker W → Worker W × Shared W × List (Event W) → Type 0
  OnCores task w r = IsTaken task w.cpu_queue r.0.cpu_queue r.2

  abbrev pub OnChannel :
      Lane → ShardTask W → Worker W → Worker W × Shared W × List (Event W) → Type 0
  OnChannel lane task w r = IsTaken task (channel_of lane w).queue (channel_of lane r.0).queue r.2

  same_cpu_queue :
      (need : W) (w : Worker W) {w' : Worker W}
      → take_memory need w ≡ ok w'
      → w'.cpu_queue ≡ w.cpu_queue
  unfolding take_memory
  same_cpu_queue need w e = ground arith

  -- A start where none waits, on the cores and on a channel.
  start_cpu_task-IsTaken :
      (time : W) (task : ShardTask W) (w : Worker W) (s : Shared W)
      → w.cpu_queue ≡ []
      → Ensures
          (λ (r : Worker W × Shared W × List (Event W)). IsTaken task [] r.0.cpu_queue r.2)
          (start_cpu_task time task w s)
  unfolding start_cpu_task increase_cpu_usage finish_event
  start_cpu_task-IsTaken time task w s h =
      Ensures-bind _ (take_memory task.memory_need (increase_cpu_usage one_double w)) _
        (λ w2 e. inr (refl, same_cpu_queue task.memory_need _ e ∙ h, (refl, refl, refl)))

  abbrev ChannelStarted :
      Lane → ShardTask W → Worker W × Shared W × List (Event W) × List (Event W) → Type 0
  ChannelStarted lane task r = ((channel_of lane r.0).queue ≡ []) × EndsFirst task r.2

  start_channel_task-ChannelStarted :
      (lane : Lane) (time : W) (task : ShardTask W) (w : Worker W) (s : Shared W)
      → (channel_of lane w).queue ≡ []
      → Ensures (ChannelStarted lane task) (start_channel_task lane time task w s)
  unfolding start_channel_task run_task add_running update_channel finish_event
  start_channel_task-ChannelStarted lane time task w s h =
      let queue = λ (c : Channel W). c.queue in
      Ensures-bind (ChannelStarted lane task) (take_memory task.memory_need (increase_usage lane w))
        _
        (λ w1 e. (
          ap queue (run_task_lem lane time task w1 s).0
              ∙ ap queue (take_memory_frame lane task.memory_need (increase_usage lane w) e).0
              ∙ ap queue (channel-increase_usage lane w).0
              ∙ h,
          (refl, refl, refl),
        ))

  place_cpu_task-OnCores :
      (time : W) (task : ShardTask W) (w : Worker W) (s : Shared W)
      → Ensures (OnCores task w) (place_cpu_task time task w s)
  unfolding place_cpu_task
  place_cpu_task-OnCores time task w s = elim (List-cases w.cpu_queue) [
    | inr (q, qs, e) ↦ rw e (inl (refl, refl))
    | inl e ↦ elim (Bool-cases (core_available w)) [
      | inr a ↦ rw (e, a) (inl (refl, refl))
      | inl a ↦ rw (e, a) (start_cpu_task-IsTaken time task _ s refl)
    ]
  ]

  place_channel_task-OnChannel :
      (lane : Lane) (time : W) (task : ShardTask W) (w : Worker W) (s : Shared W)
      → Ensures (OnChannel lane task w) (place_channel_task lane time task w s)
  unfolding place_channel_task
  place_channel_task-OnChannel lane time task w s =
      let queue = λ (c : Channel W). c.queue in
      elim (List-cases (channel_of lane w).queue) [
        | inr (q, qs, e) ↦
            rw (e, place_channel_task)
              (inl (
                ap queue (channel-set_channel lane w _).0 ∙ sym (ap (λ l. l ++ task ∷ []) e),
                refl,
              ))
        | inl e ↦ elim (Bool-cases (slot_available (channel_of lane w))) [
          | inr a ↦
              rw (e, place_channel_task, a)
                (inl (
                  ap queue (channel-set_channel lane w _).0 ∙ sym (ap (λ l. l ++ task ∷ []) e),
                  refl,
                ))
          | inl a ↦
              rw (e, place_channel_task, a)
                (Ensures-bind _ (start_channel_task lane time task w s) _ (λ r g.
                  let (none_left, first) =
                    Ensures-ok (ChannelStarted lane task) _
                      (start_channel_task-ChannelStarted lane time task w s e) g in
                  inr (e, none_left, EndsFirst-append task r.2 r.3 first)))
        ]
      ]

-- A task whose need for memory is not above zero, or fits with what is used into the capacity, is placed on
-- the cores and on both channels without an abort, and is not lost: it waits behind those that wait, and
-- no event is made; or none waits, and the first event that is made is the end of the task, with the
-- number of its job as principal.
pub place_task_returns :
    {W : Type 0} ⦃d : Double W⦄ (lane : Lane) (time : W) (task : ShardTask W) (w : Worker W)
    (s : Shared W)
    → HasRoom task.memory_need w
    → ((r : Worker W × Shared W × List (Event W)) × (place_cpu_task time task w s ≡ ok r)
        × IsTaken task w.cpu_queue r.0.cpu_queue r.2)
      × ((r : Worker W × Shared W × List (Event W)) × (place_channel_task lane time task w s ≡ ok r)
          × IsTaken task (channel_of lane w).queue (channel_of lane r.0).queue r.2)
place_task_returns lane time task w s h =
    let (r, e) =
      returned (place_cpu_task time task w s) (λ why. place_cpu_task-returns time task w s why h) in
    let (q, g) =
      returned (place_channel_task lane time task w s)
        (λ why. place_channel_task-returns lane time task w s why h) in
    (
      (r, e, Ensures-ok (OnCores task w) _ (place_cpu_task-OnCores time task w s) e),
      (
        q,
        g,
        Ensures-ok (OnChannel lane task w) _ (place_channel_task-OnChannel lane time task w s) g,
      ),
    )

-- ===== src/Worker/Channel/Place.antt =====
-- src/worker/worker_disk.h and worker_network.h: `PlaceNewTask`.
use mathlib.Core.Path.{subst₂, ap₂}
use mathlib.Core.List.{map-append}
use h_axe_simulation.Resource.{by_index}
use h_axe_simulation.Prelude.{
  ℕ, suc, ◌≡◌, refl, sym, ap, ◌∙◌, true, false, inl, inr, ◌⊎◌, List, [], ◌∷◌, ◌++◌, append_assoc,
  arith, ok, Bool-cases, length, length-append, Ensures, Ensures-bind, Ensures-ok, append-nil,
}
use h_axe_simulation.Prelude.Int.{pos, ◌+ℤ◌}
use h_axe_simulation.Number.{Double}
use h_axe_simulation.Job.{ShardTask}
use h_axe_simulation.Event.{Event}
use h_axe_simulation.Worker.State.{Worker, Shared, Channel, take_memory}
use h_axe_simulation.Worker.Channel.{
  Lane, resource_of, channel_of, set_channel, capacity_of, add_running, update_channel, run_task,
  slot_available, start_channel_task, place_channel_task, increase_usage, band_width,
}
use h_axe_simulation.Worker.Channel.Update.{event_ids, Accounts, update_running-Accounts}
use h_axe_simulation.Worker.Channel.Account.{
  IsAccounted, IsAccounted-congr, add-IsAccounted, update-IsAccounted, IsAccounted→AreApart,
  take_memory_frame, channel-increase_usage, channel-set_channel,
}
use h_axe_simulation.Worker.Channel.Settled.{
  IsSteady, IsSettled, new_record, run_task_lem, update_channel-IsSettled,
}

abbrev pub one_more : {W : Type 0} → Channel W → Channel W
one_more c = record c { current = c.current +ℤ pos 1 }

module _ {W : Type 0} ⦃d : Double W⦄ (lane : Lane) (others pending : List ℕ) where
  -- The account and the channel after an operation that returned `r`.
  abbrev pub IsKept : Worker W × Shared W × List (Event W) → Type 0
  IsKept r =
      IsAccounted lane others (pending ++ event_ids r.2) r.0 r.1
      × IsSettled (capacity_of lane r.0) (channel_of lane r.0)

  -- A task that runs gets the next event; the events of the others are replaced.
  pub run_task-IsAccounted :
      (time : W) (task : ShardTask W) (w w2 : Worker W) (s : Shared W)
      → (channel_of lane w2).running ≡ (channel_of lane w).running
      → IsAccounted lane others pending w s
      → let r = run_task lane time task w2 s in
        IsAccounted lane others (pending ++ event_ids (r.2 ++ r.3)) r.0 r.1
  unfolding add_running update_channel
  run_task-IsAccounted time task w w2 s e a =
      let r = run_task lane time task w2 s in
      let (channel, shared, own, moved, _) = run_task_lem lane time task w2 s in
      let c2 = channel_of lane w2 in
      let new = new_record (capacity_of lane w2) time s.event_num task c2 in
      let w3 = set_channel lane w2 (record c2 { running = c2.running ++ new ∷ [] }) in
      let s1 : Shared W = record s { event_num = suc s.event_num } in
      let rows : (channel_of lane w3).running ≡ c2.running ++ new ∷ [] =
        ap (λ c. c.running) (channel-set_channel lane w2 _).0 in
      let added : IsAccounted lane others (pending ++ s.event_num ∷ []) w3 s1 =
        add-IsAccounted lane others pending w w3 s s1 new (rw rows (rw e)) refl refl refl a in
      let accounts : Accounts (channel_of lane w3).running (channel_of lane r.0).running s1 r.1
          r.3 =
        rw (channel, shared, moved, rows)
          (update_running-Accounts time (band_width (capacity_of lane w2) c2) _ s1
            (rw rows at (IsAccounted→AreApart lane others _ w3 s1 added))) in
      let kept = update-IsAccounted lane others _ w3 r.0 s1 r.1 r.3 accounts added in
      rw (map-append, own, ← append_assoc) kept

  -- The channel after a task runs, from the one before it took its slot.
  pub run_task_channel :
      (time : W) (task : ShardTask W) (w w2 : Worker W) (s : Shared W)
      → (channel_of lane w2 ≡ one_more (channel_of lane w)) × (w2.capacity ≡ w.capacity)
      → let r = run_task lane time task w2 s in
        ((add_running
            (capacity_of lane w)
            time
            s.event_num
            task
            (one_more (channel_of lane w))
            (record s { event_num = suc s.event_num })).0
          ≡ channel_of lane r.0)
        × (capacity_of lane w ≡ capacity_of lane r.0)
  run_task_channel time task w w2 s (e, same) =
      let (channel, _, _, _, capacity) = run_task_lem lane time task w2 s in
      let K : capacity_of lane w2 ≡ capacity_of lane w =
        ap (λ p. by_index p (resource_of lane)) same in
      (
        sym (
            channel
            ∙ ap₂
                (λ x c.
                  (add_running x time s.event_num task c
                    (record s { event_num = suc s.event_num })).0)
                K e),
        sym (ap (λ p. by_index p (resource_of lane)) (capacity ∙ same)),
      )

  -- The channel on which no task waits, and one now runs.
  run_task-IsSettled :
      (time : W) (task : ShardTask W) (w w2 : Worker W) (s : Shared W)
      → (channel_of lane w2 ≡ one_more (channel_of lane w)) × (w2.capacity ≡ w.capacity)
      → IsSteady (capacity_of lane w)
      → IsSettled (capacity_of lane w) (channel_of lane w)
      → (channel_of lane w).queue ≡ []
      → slot_available (channel_of lane w) ≡ true
      → let r = run_task lane time task w2 s in
        IsSettled (capacity_of lane r.0) (channel_of lane r.0)
  unfolding add_running slot_available ◌+ℤ◌
  run_task-IsSettled time task w w2 s frame law b idle room =
      let c = channel_of lane w in
      let (channel, capacity) = run_task_channel time task w w2 s frame in
      let new = new_record (capacity_of lane w) time s.event_num task (one_more c) in
      let size = length-append c.running (new ∷ []) in
      subst₂ IsSettled capacity channel (
        update_channel-IsSettled (capacity_of lane w) time
          (record c { current = c.current +ℤ pos 1; running = c.running ++ new ∷ [] }) _ law
          (ground (arith, b.counted, size)) (ground (arith, b.counted, b.bounded, size)) (inl idle))

  module _ (time : W) (task : ShardTask W) (w : Worker W) (s : Shared W)
      (law : IsSteady (capacity_of lane w)) (a : IsAccounted lane others pending w s)
      (b : IsSettled (capacity_of lane w) (channel_of lane w)) where
    start-IsKept :
        (channel_of lane w).queue ≡ []
        → slot_available (channel_of lane w) ≡ true
        → Ensures
            (λ (r : Worker W × Shared W × List (Event W) × List (Event W)).
              IsKept (r.0, r.1, r.2 ++ r.3))
            (start_channel_task lane time task w s)
    unfolding start_channel_task
    start-IsKept idle room =
        Ensures-bind _ (take_memory task.memory_need (increase_usage lane w)) _ λ w2 taken.
          let (channel, capacity) = take_memory_frame lane _ _ taken in
          let (more, same) = channel-increase_usage lane w in
          (
            run_task-IsAccounted time task w w2 s (ap (λ c. c.running) (channel ∙ more)) a,
            run_task-IsSettled time task w w2 s (channel ∙ more, capacity ∙ same) law b idle room,
          )

    -- A task that waits changes the queue alone.
    queue-IsKept :
        (q : List (ShardTask W))
        → (length (channel_of lane w).running ≡ 10)
        → IsKept (set_channel lane w (record (channel_of lane w) { queue = q }), s, [])
    unfolding band_width
    queue-IsKept q full =
        let c = channel_of lane w in
        let (channel, capacity) = channel-set_channel lane w (record c { queue = q }) in
        (
          rw append-nil
              (IsAccounted-congr lane others pending w _ s (ap (λ x. x.running) channel) a),
          subst₂ IsSettled (sym (ap (λ p. by_index p (resource_of lane)) capacity)) (sym channel)
              (record {
                counted = b.counted;
                bounded = b.bounded;
                steady = b.steady;
                busy = inr full;
              }),
        )

    place-IsKept : Ensures IsKept (place_channel_task lane time task w s)
    unfolding place_channel_task slot_available ◌+ℤ◌
    place-IsKept =
        go (channel_of lane w).queue refl (Bool-cases (slot_available (channel_of lane w)))
      where
        go :
            (q : List (ShardTask W))
            → (channel_of lane w).queue ≡ q
            → (slot_available (channel_of lane w) ≡ true)
              ⊎ (slot_available (channel_of lane w) ≡ false)
            → Ensures IsKept (place_channel_task lane time task w s)
        go [] e (inl room) =
            rw (e, place_channel_task, room)
              (Ensures-bind _ (start_channel_task lane time task w s) _
                λ r started. Ensures-ok _ _ (start-IsKept e room) started)
        go [] e (inr full) =
            rw (e, place_channel_task, full) (queue-IsKept _ (ground (arith, b.counted, b.bounded)))
        go (q ∷ qs) e _ = rw (e, place_channel_task) (queue-IsKept _ (ground (arith, b.busy)))

-- A new task keeps the account of a channel and leaves it settled: afterwards each running task has
-- one event to come that is not invalid, the events of tasks whose end moved are invalid, and a
-- task waits only if ten run. It is so whenever the call does not fail its check on memory.
pub place_channel_task_lem :
    {W : Type 0} ⦃d : Double W⦄ (lane : Lane) (others pending : List ℕ) (time : W)
    (task : ShardTask W) (w : Worker W) (s : Shared W) {w' : Worker W} {s' : Shared W}
    {events : List (Event W)}
    → IsSteady (capacity_of lane w)
    → IsAccounted lane others pending w s
    → IsSettled (capacity_of lane w) (channel_of lane w)
    → place_channel_task lane time task w s ≡ ok (w', s', events)
    → IsAccounted lane others (pending ++ event_ids events) w' s'
      × IsSettled (capacity_of lane w') (channel_of lane w')
place_channel_task_lem lane others pending time task w s law a b e =
    Ensures-ok (IsKept lane others pending) _
      (place-IsKept lane others pending time task w s law a b) e

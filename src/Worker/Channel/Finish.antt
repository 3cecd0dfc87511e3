-- ===== src/Worker/Channel/Finish.antt =====
-- src/worker/worker_disk.h and worker_network.h: `TaskFinish`.
use mathlib.Core.Path.{subst, subst₂, ap₂}
use h_axe_simulation.Prelude.{
  ℕ, suc, ◌≤◌, ◌≡◌, sym, ap, ◌∙◌, true, inl, inr, ◌⊎◌, List, [], ◌∷◌, ◌++◌, append-nil, arith, ok,
  All-append, length, length-append, Ensures, Ensures-bind, Ensures-ok,
}
use h_axe_simulation.Prelude.Int.{ℤ, pos, ◌+ℤ◌, ◌-ℤ◌, int_laws}
use h_axe_simulation.Number.{Double}
use h_axe_simulation.Resource.{by_index}
use h_axe_simulation.Job.{ShardTask}
use h_axe_simulation.Event.{Event}
use h_axe_simulation.Worker.State.{Worker, Shared, Channel, take_memory, release_memory}
use h_axe_simulation.Worker.Channel.{
  Lane, resource_of, channel_of, set_channel, capacity_of, add_running, update_channel,
  update_worker, run_task, slot_available, start_channel_task, start_next_channel_task,
  finish_channel_task, increase_usage, decrease_usage, decrease_reservation, delete_running,
  band_width,
}
use h_axe_simulation.Worker.Channel.Update.{count, running_ids, event_ids, update_running-Accounts}
use h_axe_simulation.Worker.Channel.Account.{
  IsAccounted, IsAccounted-congr, update-IsAccounted, IsAccounted→AreApart, take_memory_frame,
  release_memory_frame, channel-increase_usage, channel-decrease_usage, channel-set_channel,
}
use h_axe_simulation.Worker.Channel.Settled.{
  IsSteady, IsSettled, AtBandwidth, new_record, run_task_lem, update_channel-IsSettled,
  add_running-settled, delete_running_lem, delete_running-All,
}
use h_axe_simulation.Worker.Channel.Place.{IsKept, one_more, run_task-IsAccounted}

module _ {W : Type 0} ⦃d : Double W⦄ (lane : Lane) (others pending : List ℕ) (n : ℕ) where
  -- The channel without the task of event `n`.
  abbrev without : Channel W → Channel W
  without c = record c { current = c.current -ℤ pos 1; running = delete_running n c.running }

  -- The worker once the record is deleted and the slot is free.
  abbrev freed : W → Worker W → Worker W
  freed x w = decrease_reservation lane x (
      decrease_usage lane (
        set_channel lane w
          (record (channel_of lane w) { running = delete_running n (channel_of lane w).running })))

  freed_lem :
      (x : W) (w : Worker W)
      → (channel_of lane (freed x w) ≡ without (channel_of lane w))
        × ((freed x w).capacity ≡ w.capacity)
  freed_lem x w =
      let (channel, capacity) = channel-decrease_usage lane x _ in
      let (inner, same) = channel-set_channel lane w _ in
      (
        channel ∙ ap (λ (c : Channel W). record c { current = c.current -ℤ pos 1 }) inner,
        capacity ∙ same,
      )

  -- The event that is handled leaves those to come, with its record.
  freed-IsAccounted :
      (w w3 : Worker W) (s : Shared W)
      → channel_of lane w3 ≡ without (channel_of lane w)
      → count n (running_ids (channel_of lane w).running) ≡ 1
      → IsAccounted lane others (n ∷ pending) w s
      → IsAccounted lane others pending w3 s
  freed-IsAccounted w w3 s e there a =
      let (_, same) = delete_running_lem n _ there in
      record {
        balance = λ m. rw e (omega (arith, same m, a.balance m));
        once = λ m. omega (arith, a.once m);
        fresh = λ m h. omega (arith, a.fresh m h);
      }

  -- The end of a task on a channel where none waits: the others share its bandwidth.
  update_worker-IsKept :
      (time : W) (w3 : Worker W) (s : Shared W)
      → IsSteady (capacity_of lane w3)
      → (channel_of lane w3).current ≡ pos (length (channel_of lane w3).running)
      → length (channel_of lane w3).running ≤ 10
      → (channel_of lane w3).queue ≡ []
      → IsAccounted lane others pending w3 s
      → IsKept lane others pending (update_worker lane time w3 s)
  unfolding update_worker update_channel
  update_worker-IsKept time w3 s law counted bounded idle a =
      let c = channel_of lane w3 in
      let K = capacity_of lane w3 in
      let c' = (update_channel K time c s).0 in
      let (channel, capacity) = channel-set_channel lane w3 c' in
      (
        update-IsAccounted lane others pending w3 _ s _ _
            (rw channel (
              update_running-Accounts time (band_width K c) c.running s
                (IsAccounted→AreApart lane others pending w3 s a)))
            a,
        subst₂ IsSettled (sym (ap (λ p. by_index p (resource_of lane)) capacity)) (sym channel)
            (update_channel-IsSettled K time c s law counted bounded (inl idle)),
      )

  one_more-without : (c : Channel W) → (one_more (without c)).current ≡ c.current
  one_more-without c = omega int_laws

  module _ (time : W) (task : ShardTask W) (w w3 : Worker W) (s : Shared W)
      (frame : (channel_of lane w3 ≡ without (channel_of lane w)) × (w3.capacity ≡ w.capacity))
      (law : IsSteady (capacity_of lane w))
      (there : count n (running_ids (channel_of lane w).running) ≡ 1)
      (a : IsAccounted lane others (n ∷ pending) w s)
      (b : IsSettled (capacity_of lane w) (channel_of lane w)) where
    -- The slot that was freed is taken by the next task: the bandwidth is as it was.
    next_channel : Channel W
    next_channel = record (channel_of lane w) {
      running =
          delete_running n (channel_of lane w).running
          ++ new_record (capacity_of lane w) time s.event_num task (channel_of lane w) ∷ [];
    }

    add_next :
        (w4 : Worker W)
        → (channel_of lane w4 ≡ one_more (channel_of lane w3)) × (w4.capacity ≡ w3.capacity)
        → add_running
            (capacity_of lane w4)
            time
            s.event_num
            task
            (channel_of lane w4)
            (record s { event_num = suc s.event_num })
          ≡ (next_channel, record s { event_num = suc s.event_num }, [])
    unfolding next_channel band_width
    add_next w4 (e, same) =
        let c = channel_of lane w in
        let K = capacity_of lane w in
        let s1 : Shared W = record s { event_num = suc s.event_num } in
        let c0 : Channel W = record c { running = delete_running n c.running } in
        let back : one_more (without c) ≡ c0 =
          ap
            (λ (i : ℤ).
              let r : Channel W = record c { current = i; running = delete_running n c.running } in
              r)
            (one_more-without c) in
        let (size, _) = delete_running_lem n c.running there in
        ap₂ (λ x y. add_running x time s.event_num task y s1)
          (ap (λ p. by_index p (resource_of lane)) (same ∙ frame.1))
          (e ∙ (ap one_more frame.0 ∙ back))
        ∙ add_running-settled K time s.event_num task c0 s1
            (delete_running-All (AtBandwidth (band_width K c)) n c.running b.steady)
            (rw (b.counted, size) (law (length (delete_running n c.running))))

    room : slot_available (channel_of lane w3) ≡ true
    unfolding slot_available ◌+ℤ◌ ◌-ℤ◌
    room =
        let (size, _) = delete_running_lem n (channel_of lane w).running there in
        rw (frame.0, b.counted, size) (ground (arith, b.bounded, size))

    -- The events that `TaskFinish` does not use are none.
    next-IsKept :
        (w4 : Worker W) (rest : List (ShardTask W))
        → (channel_of lane w4 ≡ one_more (channel_of lane w3)) × (w4.capacity ≡ w3.capacity)
        → (channel_of lane w).queue ≡ task ∷ rest
        → let r = run_task lane time task w4 s in
          IsKept lane others pending
            (set_channel lane r.0 (record (channel_of lane r.0) { queue = rest }), r.1, r.2)
    unfolding next_channel band_width
    next-IsKept w4 rest frame4 waiting =
        let r = run_task lane time task w4 s in
        let c = channel_of lane w in
        let ten : (c.queue ≡ []) ⊎ (length c.running ≡ 10) → length c.running ≡ 10 = elim [
          | inl e ↦ cc
          | inr e ↦ e
        ] in
        let (channel, _, own, moved, cap4) = run_task_lem lane time task w4 s in
        let added = add_next w4 frame4 in
        let none : r.3 ≡ [] = moved ∙ ap (λ x. x.2) added in
        let new : channel_of lane r.0 ≡ next_channel = channel ∙ ap (λ x. x.0) added in
        let last : Channel W = record next_channel { queue = rest } in
        let put = channel-set_channel lane r.0 (record (channel_of lane r.0) { queue = rest }) in
        let (size, _) = delete_running_lem n c.running there in
        let total =
          length-append (delete_running n c.running)
            (new_record (capacity_of lane w) time s.event_num task c ∷ []) in
        let ran =
          run_task-IsAccounted lane others pending time task w3 w4 s (ap (λ x. x.running) frame4.0)
            (freed-IsAccounted w w3 s frame.0 there a) in
        (
          IsAccounted-congr lane others _ r.0 _ r.1 (ap (λ x. x.running) put.0) (
              subst (λ l. IsAccounted lane others (pending ++ event_ids l) r.0 r.1)
                (ap (◌++◌ r.2) none ∙ append-nil r.2) ran),
          subst₂ IsSettled
              (sym
                (ap (λ p. by_index p (resource_of lane)) (put.1 ∙ (cap4 ∙ (frame4.1 ∙ frame.1)))))
              (sym (
                put.0
                ∙ ap (λ (x : Channel W). let y : Channel W = record x { queue = rest } in y) new))
              (record {
                counted = b.counted ∙ ap pos (omega (arith, size, total));
                bounded = omega (arith, b.bounded, size, total);
                steady =
                    All-append (AtBandwidth (band_width (capacity_of lane w) c)) _ _
                      (delete_running-All _ n c.running b.steady)
                      (rw (b.counted, size) (law _), tt);
                busy = inr (omega (arith, ten b.busy, size, total));
              }),
        )

    start_next-IsKept :
        (rest : List (ShardTask W))
        → (channel_of lane w).queue ≡ task ∷ rest
        → Ensures
            (IsKept lane others pending)
            (start_next_channel_task lane time (task ∷ rest) w3 s)
    unfolding start_next_channel_task start_channel_task
    start_next-IsKept rest waiting =
        let stored = λ (r : Worker W × Shared W × List (Event W) × List (Event W)).
          IsKept lane others pending
            (set_channel lane r.0 (record (channel_of lane r.0) { queue = rest }), r.1, r.2) in
        let starts : Ensures stored (start_channel_task lane time task w3 s) =
          Ensures-bind stored (take_memory task.memory_need (increase_usage lane w3)) _ λ w4 taken.
            let (channel, capacity) = take_memory_frame lane _ _ taken in
            let (more, same) = channel-increase_usage lane w3 in
            next-IsKept w4 rest (channel ∙ more, capacity ∙ same) waiting in
        rw (room, start_next_channel_task)
          (Ensures-bind _ (start_channel_task lane time task w3 s) _
            λ r started. Ensures-ok stored _ starts started)

  module _ (time : W) (task : ShardTask W) (w : Worker W) (s : Shared W)
      (law : IsSteady (capacity_of lane w))
      (there : count n (running_ids (channel_of lane w).running) ≡ 1)
      (a : IsAccounted lane others (n ∷ pending) w s)
      (b : IsSettled (capacity_of lane w) (channel_of lane w)) where
    -- Whatever waits when the slot is free.
    freed-IsKept :
        (q : List (ShardTask W)) (w3 : Worker W)
        → (channel_of lane w3 ≡ without (channel_of lane w)) × (w3.capacity ≡ w.capacity)
        → (channel_of lane w).queue ≡ q
        → Ensures (IsKept lane others pending) (start_next_channel_task lane time q w3 s)
    unfolding start_next_channel_task ◌-ℤ◌
    freed-IsKept [] w3 frame e =
        let (size, _) = delete_running_lem n (channel_of lane w).running there in
        let K = ap (λ p. by_index p (resource_of lane)) (sym frame.1) in
        update_worker-IsKept time w3 s (subst IsSteady K law)
          (rw (frame.0, b.counted, size) (ground (arith, size)))
          (rw frame.0 (omega (arith, b.bounded, size))) (rw frame.0 e)
          (freed-IsAccounted w w3 s frame.0 there a)
    freed-IsKept (next ∷ rest) w3 frame e =
        start_next-IsKept time next w w3 s frame law there a b rest e

    finish-IsKept : Ensures (IsKept lane others pending) (finish_channel_task lane time n task w s)
    unfolding finish_channel_task
    finish-IsKept = Ensures-bind _ (release_memory task.memory_need w) _ λ w1 released.
        let (channel, capacity) = release_memory_frame lane _ _ released in
        let (freed_channel, same) = freed_lem task.req w1 in
        freed-IsKept _ (freed task.req w1) (freed_channel ∙ ap without channel, same ∙ capacity)
          (sym (ap (λ c. c.queue) (freed_channel ∙ ap without channel)))

-- The end of a task keeps the account of its channel too, and leaves it settled. The event that is
-- handled goes with the task's record. If a task waits, the next one starts at the bandwidth of
-- before; so the events that `TaskFinish` drops at that point, those of `AddRunningTaskRecord`, are
-- none, and no running task is left without its event.
pub finish_channel_task_lem :
    {W : Type 0} ⦃d : Double W⦄ (lane : Lane) (others pending : List ℕ) (time : W) (n : ℕ)
    (task : ShardTask W) (w : Worker W) (s : Shared W) {w' : Worker W} {s' : Shared W}
    {events : List (Event W)}
    → IsSteady (capacity_of lane w)
    → count n (running_ids (channel_of lane w).running) ≡ 1
    → IsAccounted lane others (n ∷ pending) w s
    → IsSettled (capacity_of lane w) (channel_of lane w)
    → finish_channel_task lane time n task w s ≡ ok (w', s', events)
    → IsAccounted lane others (pending ++ event_ids events) w' s'
      × IsSettled (capacity_of lane w') (channel_of lane w')
finish_channel_task_lem lane others pending time n task w s law there a b e =
    Ensures-ok (IsKept lane others pending) _
      (finish-IsKept lane others pending n time task w s law there a b) e

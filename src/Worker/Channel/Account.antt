-- ===== src/Worker/Channel/Account.antt =====
-- src/worker/worker_disk.h and worker_network.h: each running task has exactly one event that ends it.
use h_axe_simulation.Prelude.{ℕ, suc, ◌+◌, ◌≤◌, ◌≡◌, ap, List, [], ◌∷◌, ◌++◌, ok, arith}
use h_axe_simulation.Prelude.Int.{pos, ◌+ℤ◌, ◌-ℤ◌}
use h_axe_simulation.Number.{Double}
use h_axe_simulation.Event.{Event}
use h_axe_simulation.Worker.State.{
  Worker, Shared, Channel, RunningTask, take_memory, release_memory,
}
use h_axe_simulation.Worker.Channel.{
  Lane, channel_of, set_channel, increase_usage, decrease_usage, decrease_reservation,
}
use h_axe_simulation.Worker.Channel.Update.{
  count, count-append, running_ids-append, running_ids, event_ids, AreApart, Accounts,
}

-- The ids of the events that are to come (`pending`) are those of the running tasks of a channel,
-- those that others wait for, and the invalid ones: each is one of these, and there once.
pub record IsAccounted {W : Type 0} (lane : Lane) (others pending : List ℕ) (w : Worker W)
    (s : Shared W) : Type 0 where
  pub balance :
      (n : ℕ)
      → count n (running_ids (channel_of lane w).running) + count n others + count n s.invalid
        ≡ count n pending
  pub once : (n : ℕ) → count n pending ≤ 1
  pub fresh : (n : ℕ) → s.event_num ≤ n → count n pending ≡ 0

module _ {W : Type 0} ⦃d : Double W⦄ where
  -- Memory touches neither the channels nor the capacity.
  pub take_memory_frame :
      (lane : Lane) (x : W) (w : Worker W) {w' : Worker W}
      → take_memory x w ≡ ok w'
      → (channel_of lane w' ≡ channel_of lane w) × (w'.capacity ≡ w.capacity)
  unfolding take_memory channel_of
  take_memory_frame lane x w e = ground arith

  pub release_memory_frame :
      (lane : Lane) (x : W) (w : Worker W) {w' : Worker W}
      → release_memory x w ≡ ok w'
      → (channel_of lane w' ≡ channel_of lane w) × (w'.capacity ≡ w.capacity)
  unfolding release_memory channel_of
  release_memory_frame lane x w e = ground arith

  pub channel-increase_usage :
      (lane : Lane) (w : Worker W)
      → (channel_of lane (increase_usage lane w)
          ≡ record (channel_of lane w) { current = (channel_of lane w).current +ℤ pos 1 })
        × ((increase_usage lane w).capacity ≡ w.capacity)
  unfolding increase_usage set_channel channel_of
  channel-increase_usage lane w = ground arith

  pub channel-decrease_usage :
      (lane : Lane) (x : W) (w : Worker W)
      → let w' = decrease_reservation lane x (decrease_usage lane w) in
        (channel_of lane w'
          ≡ record (channel_of lane w) { current = (channel_of lane w).current -ℤ pos 1 })
        × (w'.capacity ≡ w.capacity)
  unfolding decrease_usage decrease_reservation set_channel channel_of
  channel-decrease_usage lane x w = ground arith

  pub channel-set_channel :
      (lane : Lane) (w : Worker W) (c : Channel W)
      → (channel_of lane (set_channel lane w c) ≡ c)
        × ((set_channel lane w c).capacity ≡ w.capacity)
  unfolding set_channel channel_of
  channel-set_channel lane w c = ground arith

  -- Any run of the update loop keeps the account: `c` is the channel of `w`, `w'` the worker after.
  pub update-IsAccounted :
      (lane : Lane) (others pending : List ℕ) (w w' : Worker W) (s s' : Shared W)
      (events : List (Event W))
      → Accounts (channel_of lane w).running (channel_of lane w').running s s' events
      → IsAccounted lane others pending w s
      → IsAccounted lane others (pending ++ event_ids events) w' s'
  update-IsAccounted lane others pending w w' s s' events acc a = record {
    balance =
        λ n. omega (arith, acc.balance n, a.balance n, count-append n pending (event_ids events));
    once = λ n.
        ground
          (arith, acc.numbered n, a.once n, a.fresh n, count-append n pending (event_ids events));
    fresh = λ n h.
        ground
          (arith, acc.numbered n, acc.grows, a.fresh n, count-append n pending (event_ids events));
  }

  -- A new record with the next event.
  pub add-IsAccounted :
      (lane : Lane) (others pending : List ℕ) (w w' : Worker W) (s s' : Shared W)
      (r : RunningTask W)
      → (channel_of lane w').running ≡ (channel_of lane w).running ++ r ∷ []
      → r.event_id ≡ s.event_num
      → s'.event_num ≡ suc s.event_num
      → s'.invalid ≡ s.invalid
      → IsAccounted lane others pending w s
      → IsAccounted lane others (pending ++ s.event_num ∷ []) w' s'
  add-IsAccounted lane others pending w w' s s' r e i m v a = record {
    balance = λ n.
        rw (e, v)
          (omega (
            arith,
            running_ids-append n (channel_of lane w).running (r ∷ []),
            a.balance n,
            count-append n pending (s.event_num ∷ []),
            ap (λ k. count n (k ∷ [])) i,
          ));
    once = λ n. ground (arith, a.once n, a.fresh n, count-append n pending (s.event_num ∷ []));
    fresh = λ n h. ground (arith, a.fresh n, count-append n pending (s.event_num ∷ []));
  }

  pub IsAccounted→AreApart :
      (lane : Lane) (others pending : List ℕ) (w : Worker W) (s : Shared W)
      → IsAccounted lane others pending w s
      → AreApart (channel_of lane w).running s
  IsAccounted→AreApart lane others pending w s a n = omega (arith, a.balance n, a.once n)

  -- The account hangs on the records of the channel alone.
  pub IsAccounted-congr :
      (lane : Lane) (others pending : List ℕ) (w w' : Worker W) (s : Shared W)
      → (channel_of lane w').running ≡ (channel_of lane w).running
      → IsAccounted lane others pending w s
      → IsAccounted lane others pending w' s
  IsAccounted-congr lane others pending w w' s e a = record {
    balance = λ n. rw e (a.balance n);
    once = a.once;
    fresh = a.fresh;
  }

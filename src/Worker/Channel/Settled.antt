-- ===== src/Worker/Channel/Settled.antt =====
-- src/worker/worker_disk.h and worker_network.h: a channel between two operations.
use h_axe_simulation.Prelude.{
  ℕ, suc, ◌≤◌, ◌≡◌, refl, ap, Bool-cases, inl, inr, true, ◌⊎◌, List, [], ◌∷◌, ◌++◌, arith, All,
  All-append, length, ◌==◌,
}
use h_axe_simulation.Prelude.Int.{ℤ, pos}
use h_axe_simulation.Number.{Double, close, ◌⊘◌, whole}
use h_axe_simulation.Job.{ShardTask}
use h_axe_simulation.Worker.State.{Worker, Shared, Channel, RunningTask, finish_event}
use h_axe_simulation.Worker.Channel.{
  Lane, channel_of, set_channel, capacity_of, band_width, add_running, update_channel, run_task,
  delete_running, update_running,
}
use h_axe_simulation.Worker.Channel.Update.{
  count, running_ids, event_ids, update_running-settled, update_running-All, length-update_running,
}

module _ {W : Type 0} ⦃d : Double W⦄ where
  -- The share of the bandwidth for each number of tasks is as good as equal to itself, which it is
  -- for every capacity that is a finite number.
  abbrev pub IsSteady : W → Type 0
  IsSteady capacity =
      (n : ℕ) → close (capacity ⊘ whole (pos (suc n))) (capacity ⊘ whole (pos (suc n))) ≡ true

  abbrev pub AtBandwidth : W → RunningTask W → Type 0
  AtBandwidth bandwidth r = close r.last_check_bandwidth bandwidth ≡ true

  -- The count of running tasks is right and at most ten, every running task is served at the
  -- bandwidth of now, and no task waits while a slot is free.
  pub record IsSettled (capacity : W) (c : Channel W) : Type 0 where
    pub counted : c.current ≡ pos (length c.running)
    pub bounded : length c.running ≤ 10
    pub steady : All (AtBandwidth (band_width capacity c)) c.running
    pub busy : (c.queue ≡ []) ⊎ (length c.running ≡ 10)

  -- The record that `AddRunningTaskRecord` puts up.
  abbrev pub new_record : W → W → ℕ → ShardTask W → Channel W → RunningTask W
  new_record capacity time event_id task c = record {
    event_id = event_id;
    shard_task = task;
    last_check_time = time;
    last_check_data_size = task.req;
    last_check_bandwidth = band_width capacity c;
  }

  -- The steps of `run_task`, apart.
  pub run_task_lem :
      (lane : Lane) (time : W) (task : ShardTask W) (w : Worker W) (s : Shared W)
      → let r = run_task lane time task w s in
        let a =
          add_running
            (capacity_of lane w)
            time
            s.event_num
            task
            (channel_of lane w)
            (record s { event_num = suc s.event_num }) in
        (channel_of lane r.0 ≡ a.0)
        × (r.1 ≡ a.1)
        × (event_ids r.2 ≡ s.event_num ∷ [])
        × (r.3 ≡ a.2)
        × (r.0.capacity ≡ w.capacity)
  unfolding run_task channel_of set_channel finish_event
  run_task_lem Lane.disk_lane time task w s = (refl, refl, refl, refl, refl)
  run_task_lem Lane.network_lane time task w s = (refl, refl, refl, refl, refl)

  -- Where the tasks are at the bandwidth already, the new one moves no other's end.
  pub add_running-settled :
      (capacity time : W) (event_id : ℕ) (task : ShardTask W) (c : Channel W) (s : Shared W)
      → All (AtBandwidth (band_width capacity c)) c.running
      → close (band_width capacity c) (band_width capacity c) ≡ true
      → add_running capacity time event_id task c s
        ≡ (record c { running = c.running ++ new_record capacity time event_id task c ∷ [] }, s, [])
  unfolding add_running
  add_running-settled capacity time event_id task c s h e = rw (
      update_running-settled time (band_width capacity c)
        (c.running ++ new_record capacity time event_id task c ∷ []) s
        (All-append (AtBandwidth (band_width capacity c)) c.running _ h (e, tt)))

  steady_update :
      (capacity time : W) (current : ℤ) (rs : List (RunningTask W)) (s : Shared W)
      → IsSteady capacity
      → current ≡ pos (length rs)
      → All
          (AtBandwidth (capacity ⊘ whole current))
          (update_running time (capacity ⊘ whole current) rs s).0
  unfolding update_running
  steady_update capacity time current [] s law e = tt
  steady_update capacity time current (r ∷ rs) s law e =
      update_running-All time (capacity ⊘ whole current) (rw e (law (length rs))) (r ∷ rs) s

  -- An update settles a channel whose count is right and in which no task waits for a free slot.
  pub update_channel-IsSettled :
      (capacity time : W) (c : Channel W) (s : Shared W)
      → IsSteady capacity
      → c.current ≡ pos (length c.running)
      → length c.running ≤ 10
      → (c.queue ≡ []) ⊎ (length c.running ≡ 10)
      → IsSettled capacity (update_channel capacity time c s).0
  unfolding update_channel band_width
  update_channel-IsSettled capacity time c s law counted bounded busy =
      let same = length-update_running time (band_width capacity c) c.running s in
      record {
        counted = rw same counted;
        bounded = omega (arith, same);
        steady = steady_update capacity time c.current c.running s law counted;
        busy = rw same busy;
      }

  pub delete_running-All :
      (P : RunningTask W → Type 0) (n : ℕ) (rs : List (RunningTask W))
      → All P rs
      → All P (delete_running n rs)
  unfolding delete_running
  delete_running-All P n [] h = tt
  delete_running-All P n (r ∷ rs) h = ground (arith, delete_running-All P n rs h.1)

  -- Deleting the record of an event that is there once removes just that.
  pub delete_running_lem :
      (n : ℕ) (rs : List (RunningTask W))
      → count n (running_ids rs) ≡ 1
      → (length rs ≡ suc (length (delete_running n rs)))
        × ((m : ℕ) → count m (running_ids rs) ≡ count m (n ∷ running_ids (delete_running n rs)))
  unfolding delete_running
  delete_running_lem n [] h = absurd (omega arith)
  delete_running_lem n (r ∷ rs) h = elim (Bool-cases (r.event_id == n)) [
    | inl hit ↦ rw hit (refl, λ m. ground arith)
    | inr miss ↦
        let (size, same) = delete_running_lem n rs (ground arith) in
        rw miss (ap suc size, λ m. omega (arith, same m))
  ]

-- ===== src/Worker/Channel.antt =====
-- src/worker/worker_disk.h and worker_network.h, which are the same program for two resources: tasks
-- that share the bandwidth of a channel. A task's end moves when the number of tasks changes, and
-- then the event of its old end is put on the set of invalid ones.
pub mod Update
pub mod Account
pub mod Settled
pub mod Place
pub mod Finish
use h_axe_simulation.Prelude.{
  ℕ, Bool, true, false, List, [], ◌∷◌, ◌++◌, Outcome, ok, ◌>>=◌, if◌then◌else◌, ◌==◌,
}
use h_axe_simulation.Prelude.Int.{ℤ, pos, ◌+ℤ◌, ◌-ℤ◌, leb_ℤ}
use h_axe_simulation.Number.{Double, ◌⊕◌, ◌⊖◌, ◌⊗◌, ◌⊘◌, whole, close}
use h_axe_simulation.Resource.{ResourceType, disk, network, by_index, set_index}
use h_axe_simulation.Job.{ShardTask}
use h_axe_simulation.Event.{Event}
use h_axe_simulation.Worker.State.{
  Worker, Shared, Channel, RunningTask, insert_id, maximum_tasks, finish_event, take_memory,
  release_memory,
}

pub data Lane : Type 0 where
  disk_lane network_lane : Lane

abbrev pub resource_of : Lane → ResourceType
resource_of disk_lane = disk
resource_of network_lane = network

module _ {W : Type 0} where
  unfoldable pub channel_of : Lane → Worker W → Channel W
  channel_of disk_lane w = w.disk_channel
  channel_of network_lane w = w.network_channel

  unfoldable pub set_channel : Lane → Worker W → Channel W → Worker W
  set_channel disk_lane w c = record w { disk_channel = c }
  set_channel network_lane w c = record w { network_channel = c }

  -- `DeleteRunningTask`: the first record with the event.
  pub delete_running : ℕ → List (RunningTask W) → List (RunningTask W)
  delete_running n [] = []
  delete_running n (r ∷ rs) = if r.event_id == n then rs else r ∷ delete_running n rs

module _ {W : Type 0} ⦃d : Double W⦄ where
  -- The constructor.
  pub new_channel : W → Channel W
  new_channel capacity = record {
    current = pos 0;
    slot = capacity ⊘ whole maximum_tasks;
    queue = [];
    running = [];
  }

  -- `ResourceAvailable`
  unfoldable pub slot_available : Channel W → Bool
  slot_available c = leb_ℤ (c.current +ℤ pos 1) maximum_tasks

  -- `GetBandWidth`
  pub band_width : W → Channel W → W
  band_width capacity c = capacity ⊘ whole c.current

  -- `ComputeNewTaskDuration`
  pub channel_duration : W → Channel W → ShardTask W → Shared W → W
  channel_duration capacity c task s =
      let duration = whole c.current ⊗ task.req ⊘ capacity in duration ⊕ s.draw s.event_num duration

  -- One record in the loop of `UpdateRunningTask` at a bandwidth.
  unfoldable pub update_record :
      W → W → RunningTask W → Shared W → RunningTask W × Shared W × List (Event W)
  update_record time bandwidth r s =
      if close r.last_check_bandwidth bandwidth
      then (r, s, [])
      else let size =
          r.last_check_data_size ⊖ r.last_check_bandwidth ⊗ (time ⊖ r.last_check_time) in
        let (event, s') =
          finish_event (time ⊕ size ⊘ bandwidth) r.shard_task
            (record s { invalid = insert_id r.event_id s.invalid }) in
        (
          record {
            event_id = event.event_id;
            shard_task = r.shard_task;
            last_check_time = time;
            last_check_data_size = size;
            last_check_bandwidth = bandwidth;
          },
          s',
          event ∷ [],
        )

  -- `UpdateRunningTask`
  unfoldable pub update_running :
      W → W → List (RunningTask W) → Shared W → List (RunningTask W) × Shared W × List (Event W)
  unfolding update_record
  update_running time bandwidth [] s = ([], s, [])
  update_running time bandwidth (r ∷ rs) s =
      let (r', s1, events) = update_record time bandwidth r s in
      let (rs', s2, more) = update_running time bandwidth rs s1 in (r' ∷ rs', s2, events ++ more)

  -- The loop on the records of a channel.
  unfoldable pub update_channel :
      W → W → Channel W → Shared W → Channel W × Shared W × List (Event W)
  unfolding update_running band_width
  update_channel capacity time c s =
      let (running, s', events) = update_running time (band_width capacity c) c.running s in
      (record c { running = running }, s', events)

  -- `AddRunningTaskRecord`
  unfoldable pub add_running :
      W → W → ℕ → ShardTask W → Channel W → Shared W → Channel W × Shared W × List (Event W)
  unfolding update_channel band_width
  add_running capacity time event_id task c s =
      update_channel capacity time
        (record c {
          running =
              c.running
              ++ (record {
                event_id = event_id;
                shard_task = task;
                last_check_time = time;
                last_check_data_size = task.req;
                last_check_bandwidth = band_width capacity c;
              })
                ∷ [];
        })
        s

module _ {W : Type 0} ⦃d : Double W⦄ (lane : Lane) where
  abbrev pub capacity_of : Worker W → W
  capacity_of w = by_index w.capacity (resource_of lane)

  unfoldable pub increase_usage : Worker W → Worker W
  increase_usage w =
      let c = channel_of lane w in
      let i = resource_of lane in
      let w' = record w { usage = set_index w.usage i (by_index w.usage i ⊕ c.slot) } in
      set_channel lane w' (record c { current = c.current +ℤ pos 1 })

  unfoldable pub decrease_usage : Worker W → Worker W
  decrease_usage w =
      let c = channel_of lane w in
      let i = resource_of lane in
      let w' = record w { usage = set_index w.usage i (by_index w.usage i ⊖ c.slot) } in
      set_channel lane w' (record c { current = c.current -ℤ pos 1 })

  unfoldable pub decrease_reservation : W → Worker W → Worker W
  decrease_reservation resource w =
      let i = resource_of lane in
      if w.is_worker
      then record w {
        reservation = set_index w.reservation i (by_index w.reservation i ⊖ resource);
      }
      else w

  -- A task that has its slot and memory gets its event and its record. The events come in two parts:
  -- its own, and those of the tasks whose end moves.
  unfoldable pub run_task :
      W → ShardTask W → Worker W → Shared W → Worker W × Shared W × List (Event W) × List (Event W)
  unfolding add_running channel_duration
  run_task time task w s =
      let c = channel_of lane w in
      let (event, s1) = finish_event (time ⊕ channel_duration (capacity_of w) c task s) task s in
      let (c', s2, moved) = add_running (capacity_of w) time event.event_id task c s1 in
      (set_channel lane w c', s2, event ∷ [], moved)

  unfoldable pub start_channel_task :
      W
      → ShardTask W
      → Worker W
      → Shared W
      → Outcome (Worker W × Shared W × List (Event W) × List (Event W))
  unfolding increase_usage run_task
  start_channel_task time task w s = do
    w' ← take_memory task.memory_need (increase_usage w)
    ok (run_task time task w' s)

  -- `PlaceNewTask`
  unfoldable pub place_channel_task :
      W → ShardTask W → Worker W → Shared W → Outcome (Worker W × Shared W × List (Event W))
  unfolding slot_available start_channel_task
  place_channel_task time task w s =
      let c = channel_of lane w in
      elim c.queue [
        | [] ↦
            if slot_available c
            then (do
              (w', s', own, moved) ← start_channel_task time task w s
              ok (w', s', own ++ moved))
            else ok (set_channel lane w (record c { queue = task ∷ [] }), s, [])
        | q ∷ qs ↦ ok (set_channel lane w (record c { queue = q ∷ (qs ++ task ∷ []) }), s, [])
      ]

  -- `UpdateRunningTask` on the worker's channel.
  unfoldable pub update_worker : W → Worker W → Shared W → Worker W × Shared W × List (Event W)
  unfolding update_channel
  update_worker time w s =
      let (c, s', events) = update_channel (capacity_of w) time (channel_of lane w) s in
      (set_channel lane w c, s', events)

  -- The next task of the queue starts if a slot is free; what `AddRunningTaskRecord` returns is not
  -- used there. If none starts, the ends of the others move.
  unfoldable pub start_next_channel_task :
      W → List (ShardTask W) → Worker W → Shared W → Outcome (Worker W × Shared W × List (Event W))
  unfolding slot_available start_channel_task update_worker
  start_next_channel_task time [] w s = ok (update_worker time w s)
  start_next_channel_task time (task ∷ rest) w s =
      if slot_available (channel_of lane w)
      then (do
        (w', s', own, moved) ← start_channel_task time task w s
        ok (set_channel lane w' (record (channel_of lane w') { queue = rest }), s', own))
      else ok (update_worker time w s)

  -- `TaskFinish`
  unfoldable pub finish_channel_task :
      W → ℕ → ShardTask W → Worker W → Shared W → Outcome (Worker W × Shared W × List (Event W))
  unfolding decrease_usage decrease_reservation start_next_channel_task delete_running
  finish_channel_task time event_id task w s = do
    w1 ← release_memory task.memory_need w
    let c = channel_of lane w1
    let w2 = set_channel lane w1 (record c { running = delete_running event_id c.running })
    let w3 = decrease_reservation task.req (decrease_usage w2)
    start_next_channel_task time (channel_of lane w3).queue w3 s

module _ {W : Type 0} ⦃d : Double W⦄ where
  -- `PlaceNewTask` and `TaskFinish` of the network component
  abbrev pub place_network_task :
      W → ShardTask W → Worker W → Shared W → Outcome (Worker W × Shared W × List (Event W))
  place_network_task = place_channel_task network_lane

  abbrev pub finish_network_task :
      W → ℕ → ShardTask W → Worker W → Shared W → Outcome (Worker W × Shared W × List (Event W))
  finish_network_task = finish_channel_task network_lane

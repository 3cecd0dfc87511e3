-- ===== src/Worker/State.antt =====
-- src/worker/worker_common.h, and the members of the classes of src/worker. The three packs that
-- the components of a worker share by pointer are fields of the worker. What all workers share, and
-- the count of events that `Event` keeps, is `Shared`.
use h_axe_simulation.Prelude.{
  ℕ, suc, Bool, List, [], ◌∷◌, Outcome, ok, ◌>>◌, check, if◌then◌else◌, ◌==◌,
}
use h_axe_simulation.Prelude.Int.{ℤ, pos}
use h_axe_simulation.Number.{Double, ◌⊕◌, ◌⊖◌, lt, le, zero_double}
use h_axe_simulation.Resource.{ResourcePack}
use h_axe_simulation.RecordMap.{RecordMap}
use h_axe_simulation.Job.{ShardTask}
use h_axe_simulation.Event.{Event, EventType, Members}

pub record Shared (W : Type 0) : Type 0 where
  -- `Event::event_num`
  pub event_num : ℕ
  -- the set of the ids of events to skip
  pub invalid : List ℕ
  -- what the generator of `RandomNoise` gives while event number `n` is made, for a duration
  pub draw : ℕ → W → W

-- `DiskNetworkRunningTaskRecord`
pub record RunningTask (W : Type 0) : Type 0 where
  pub event_id : ℕ
  pub shard_task : ShardTask W
  pub last_check_time : W
  pub last_check_data_size : W
  pub last_check_bandwidth : W

-- The members of `WorkerDisk` or of `WorkerNetwork`.
pub record Channel (W : Type 0) : Type 0 where
  pub current : ℤ
  pub slot : W
  pub queue : List (ShardTask W)
  pub running : List (RunningTask W)

pub record Worker (W : Type 0) : Type 0 where
  -- a `Worker`, or else a `NodeManager`
  pub is_worker : Bool
  pub worker_id : ℤ
  pub capacity : ResourcePack W
  pub usage : ResourcePack W
  pub reservation : ResourcePack W
  pub maximum_reservation : ResourcePack W
  pub records : RecordMap (List W)
  pub cpu_queue : List (ShardTask W)
  pub disk_channel : Channel W
  pub network_channel : Channel W

-- `set::insert`
abbrev pub insert_id : ℕ → List ℕ → List ℕ
insert_id n [] = n ∷ []
insert_id n (m ∷ ms) = if m == n then m ∷ ms else m ∷ insert_id n ms

-- `maximum_disk_task_number_` and `maximum_network_task_number_`
abbrev pub maximum_tasks : ℤ
maximum_tasks = pos 10

module _ {W : Type 0} where
  -- The constructor of an event: it takes the next number.
  unfoldable pub new_event : EventType → W → ℤ → ℤ → Members W → Shared W → Event W × Shared W
  new_event t time priority principal members s = (
    record {
      event_type = t;
      time = time;
      priority = priority;
      principal = principal;
      event_id = s.event_num;
      members = members;
    },
    record s { event_num = suc s.event_num },
  )

  -- The event that ends a task.
  unfoldable pub finish_event : W → ShardTask W → Shared W → Event W × Shared W
  unfolding new_event
  finish_event time task =
      new_event EventType.task_finish time (pos 0) task.job_id (Members.finished_task task)

module _ {W : Type 0} ⦃d : Double W⦄ where
  -- `IncreaseMemoryUsage`
  unfoldable pub increase_memory_usage : W → Worker W → Outcome (Worker W)
  increase_memory_usage resource w = do
    let used = w.usage.memory_of ⊕ resource
    check (le used w.capacity.memory_of)
    ok (record w { usage = record (w.usage) { memory_of = used } })

  -- `DecreaseMemoryUsage`
  pub decrease_memory_usage : W → Worker W → Outcome (Worker W)
  decrease_memory_usage resource w = do
    let used = w.usage.memory_of ⊖ resource
    check (le zero_double used)
    ok (record w { usage = record (w.usage) { memory_of = used } })

  -- The tests on a task's memory: a task that wants memory takes it when it starts, and one with a
  -- negative need gives memory back when it ends.
  unfoldable pub take_memory : W → Worker W → Outcome (Worker W)
  unfolding increase_memory_usage
  take_memory need w = if lt zero_double need then increase_memory_usage need w else ok w

  unfoldable pub release_memory : W → Worker W → Outcome (Worker W)
  unfolding increase_memory_usage
  release_memory need w = if lt need zero_double then increase_memory_usage need w else ok w

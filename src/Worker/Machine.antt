-- ===== src/Worker/Machine.antt =====
-- src/worker/worker_abstract.h, worker.h and node_manager.h: what the managers and the scheduler call.
-- `Worker` and `NodeManager` are told apart by `is_worker`; a method that one of them does not
-- override is that of the base class, which does nothing.
pub mod Reserve
use h_axe_simulation.Prelude.{
  ℕ, Bool, true, false, List, [], ◌∷◌, map, Outcome, ok, fail, check_failed, undefined, ◌>>=◌, ◌>>◌,
  check, if◌then◌else◌,
}
use h_axe_simulation.Prelude.Int.{ℤ, pos, negsuc}
use h_axe_simulation.Number.{Double, ◌⊕◌, ◌⊖◌, ◌⊗◌, ◌⊘◌, le, whole, zero_double}
use h_axe_simulation.Resource.{
  ResourceType, cpu, memory, disk, network, all_types, ResourcePack, by_index, empty_pack, add,
  subtract, add_to_me, subtract_from_me, fit_in, weak_fit_in,
}
use h_axe_simulation.RecordMap.{insert_entry, report_rows}
use h_axe_simulation.Job.{ShardTask}
use h_axe_simulation.Event.{Event}
use h_axe_simulation.Worker.State.{Worker, Shared, Channel}
use h_axe_simulation.Worker.Cpu.{place_cpu_task, finish_cpu_task}
use h_axe_simulation.Worker.Channel.{
  disk_lane, new_channel, place_channel_task, finish_channel_task, place_network_task,
  finish_network_task,
}

module _ {W : Type 0} ⦃d : Double W⦄ where
  unfoldable pub shares : ResourcePack W → ResourcePack W → List ResourceType → Outcome (List W)
  shares usage capacity [] = ok []
  shares usage capacity (i ∷ is) = do
    check (le zero_double (by_index usage i))
    rest ← shares usage capacity is
    ok ((by_index usage i ⊘ by_index capacity i) ∷ rest)

  -- `GenerateUtilizationRecord`: twenty entries for a second.
  unfoldable pub utilization_record : W → Worker W → Outcome (ℤ × List W)
  unfolding shares by_index
  utilization_record time w = do
    vector ← shares w.usage w.capacity all_types
    ok (d.truncate (time ⊗ whole (pos 20)), vector)

  unfoldable pub note_usage : W → Worker W → Outcome (Worker W)
  unfolding utilization_record
  note_usage time w = do
    (tick, vector) ← utilization_record time w
    ok (record w { records = insert_entry tick vector w.records })

  -- `ReportUtilization`: the rows, after the line that names the columns.
  unfoldable pub worker_report : Worker W → List (List W)
  worker_report w = report_rows w.records

  unfoldable pub place_by_type :
      ResourceType
      → W
      → ShardTask W
      → Worker W
      → Shared W
      → Outcome (Worker W × Shared W × List (Event W))
  place_by_type cpu time task w s = place_cpu_task time task w s
  place_by_type disk time task w s = place_channel_task disk_lane time task w s
  place_by_type network time task w s = place_network_task time task w s
  place_by_type memory time task w s = fail check_failed

  -- `PlaceNewTask`
  unfoldable pub place_new_task :
      W → ShardTask W → Worker W → Shared W → Outcome (Worker W × Shared W × List (Event W))
  unfolding place_by_type note_usage
  place_new_task time task w s = do
    (w1, s', events) ← place_by_type task.resource_type time task w s
    w2 ← note_usage time w1
    ok (w2, s', events)

  unfoldable pub finish_by_type :
      ResourceType
      → W
      → ℕ
      → ShardTask W
      → Worker W
      → Shared W
      → Outcome (Worker W × Shared W × List (Event W))
  finish_by_type cpu time event_id task w s = finish_cpu_task time task w s
  finish_by_type disk time event_id task w s = finish_channel_task disk_lane time event_id task w s
  finish_by_type network time event_id task w s = finish_network_task time event_id task w s
  finish_by_type memory time event_id task w s = fail check_failed

  -- `TaskFinish`
  unfoldable pub task_finish :
      W → ℕ → ShardTask W → Worker W → Shared W → Outcome (Worker W × Shared W × List (Event W))
  unfolding finish_by_type note_usage
  task_finish time event_id task w s = do
    (w1, s', events) ← finish_by_type task.resource_type time event_id task w s
    w2 ← note_usage time w1
    ok (w2, s', events)

  -- `GetAvailableResource` and `GetRemainResourcePack`
  unfoldable pub available_resource : Worker W → ResourcePack W
  available_resource w = subtract w.capacity w.usage

  -- What a reservation must stay below: the limit of a worker, the capacity of a node manager.
  pub reservation_limit : Worker W → ResourcePack W
  reservation_limit w = if w.is_worker then w.maximum_reservation else w.capacity

  -- `TryToReserve`
  pub try_to_reserve : ResourcePack W → Worker W → Bool
  unfolding reservation_limit
  try_to_reserve resource w = fit_in (add w.reservation resource) (reservation_limit w)

  -- `Reserve`
  unfoldable pub reserve : ResourcePack W → Worker W → Worker W × Bool
  unfolding reservation_limit
  reserve resource w =
      if fit_in (add w.reservation resource) (reservation_limit w)
      then (record w { reservation = add_to_me w.reservation resource }, true)
      else (w, false)

  -- `WeakReserve`, which a node manager does not define
  pub weak_reserve : ResourcePack W → Worker W → Outcome (Worker W × Bool)
  weak_reserve resource w =
      if w.is_worker
      then (if weak_fit_in (add w.reservation resource) w.maximum_reservation d.three_halves
          then ok (record w { reservation = add_to_me w.reservation resource }, true)
          else ok (w, false))
      else fail undefined

  -- `SubGraphFinish` with the memory of a subgraph. For a node manager this is the method of the base
  -- class, which does nothing.
  unfoldable pub subgraph_finish : W → W → Worker W → Outcome (Worker W)
  unfolding note_usage
  subgraph_finish time mem w =
      if w.is_worker
      then note_usage time (record w {
        reservation = record (w.reservation) { memory_of = w.reservation.memory_of ⊖ mem };
      })
      else ok w

  -- `NodeManager::SubGraphFinish` with a pack
  pub subgraph_finish_pack : W → ResourcePack W → Worker W → Outcome (Worker W)
  unfolding note_usage
  subgraph_finish_pack time resource w =
      if w.is_worker
      then ok w
      else note_usage time (record w { reservation = subtract_from_me w.reservation resource })

  -- The constructors with a capacity; the parts of a node manager that `Init` makes are left empty.
  unfoldable pub new_worker : Bool → ResourcePack W → Worker W
  new_worker is_worker capacity = record {
    is_worker = is_worker;
    worker_id = pos 0;
    capacity = capacity;
    usage = empty_pack;
    reservation = empty_pack;
    maximum_reservation = record {
      cpu_of = whole (pos 2000);
      memory_of = capacity.memory_of;
      disk_of = whole (pos 2000);
      network_of = whole (pos 2000);
    };
    records = [];
    cpu_queue = [];
    disk_channel = new_channel capacity.disk_of;
    network_channel = new_channel capacity.network_of;
  }

  -- `from_json` of a worker or a node manager
  unfoldable pub load_worker : Bool → ResourcePack W → Outcome (Worker W)
  unfolding note_usage new_worker
  load_worker is_worker capacity = note_usage zero_double (new_worker is_worker capacity)

  -- `Init`. That of a node manager stops at a check that always fails.
  unfoldable pub init_worker : ℤ → Worker W → Outcome (Worker W)
  unfolding note_usage
  init_worker worker_id w =
      if w.is_worker
      then ok (record w {
        worker_id = worker_id;
        cpu_queue = [];
        disk_channel = new_channel w.capacity.disk_of;
        network_channel = new_channel w.capacity.network_of;
      })
      else (do w' ← note_usage zero_double w; fail check_failed)

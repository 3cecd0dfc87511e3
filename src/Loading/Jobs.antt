-- ===== src/Loading/Jobs.antt =====
-- `from_json` of src/resource/resource.h, of src/job, and of a worker or node manager of src/worker.
pub mod Uniform
use h_axe_simulation.Prelude.{
  ℕ, ◌≡◌, refl, sym, ap, ◌∙◌, Bool, true, List, [], ◌∷◌, All, map, Outcome, ok, fail, ◌>>=◌,
  undefined, Ensures, Ensures-bind, Ensures-ok, if◌then◌else◌,
}
use h_axe_simulation.Prelude.Int.{ℤ, pos, negsuc, eqb_ℤ}
use h_axe_simulation.Number.{Double, whole}
use h_axe_simulation.Resource.{ResourceType, cpu, memory, disk, network, ResourcePack}
use h_axe_simulation.Job.{
  ShardTaskId, ShardTask, SubGraph, Job, set_job_id, finish_job, unplaced, set_resources_req,
}
use h_axe_simulation.Flow.{load_subgraph, get_memory_cap}
use h_axe_simulation.Worker.State.{Worker}
use h_axe_simulation.Worker.Machine.{load_worker}
use h_axe_simulation.Loading.{Json, at_key, get_int, get_double, read_items, read_optional}

-- The value of an enumeration by its number. A number that names no resource makes a value without a
-- name; the model stops there.
pub resource_type_of : ℤ → Outcome ResourceType
resource_type_of k =
    if eqb_ℤ k (pos 0)
    then ok cpu
    else if eqb_ℤ k (pos 1)
    then ok memory
    else if eqb_ℤ k (pos 2)
    then ok disk
    else if eqb_ℤ k (pos 3)
    then ok network
    else fail undefined

module _ {V W : Type 0} ⦃d : Double W⦄ (json : Json V W) where
  -- of a pack
  pub read_pack : V → Outcome (ResourcePack W)
  read_pack j = do
    cores ← get_double json j "cpu"
    space ← get_double json j "memory"
    disk_rate ← get_double json j "disk"
    network_rate ← get_double json j "network"
    ok (record {
      cpu_of = cores;
      memory_of = space;
      disk_of = disk_rate;
      network_of = network_rate;
    })

  -- of the name of a child
  pub read_task_id : V → Outcome ShardTaskId
  read_task_id j = do
    task_id ← get_int json j "childtaskid"
    shard_id ← get_int json j "childshardid"
    ok (record { task_id = task_id; shard_id = shard_id })

  -- of a task, which has no job yet
  pub read_task : V → Outcome (ShardTask W)
  unfolding read_task_id resource_type_of read_optional
  read_task j = do
    task_id ← get_int json j "taskid"
    shard_id ← get_int json j "shardid"
    kind ← get_int json j "resourcetype"
    resource_type ← resource_type_of kind
    req ← get_double json j "request"
    memory_need ← get_double json j "memory"
    children ← read_optional json read_task_id j "children"
    ok (record {
      task_id = task_id;
      job_id = negsuc 0;
      shard_id = shard_id;
      resource_type = resource_type;
      memory_need = memory_need;
      req = req;
      children = children;
    })

  -- of a subgraph; the maximum flow of `GetMemoryCap` takes the fuel
  pub read_subgraph : ℕ → V → Outcome (SubGraph W)
  unfolding read_task read_items load_subgraph
  read_subgraph fuel j = do
    tasks ← at_key json j "shardtask"
    shard_tasks ← read_items json read_task tasks
    load_subgraph fuel shard_tasks

  -- of a job
  unfoldable pub read_job : ℕ → V → Outcome (Job W)
  unfolding read_subgraph read_optional finish_job
  read_job fuel j = do
    job_id ← get_int json j "jobid"
    user_id ← get_int json j "userid"
    submission_time ← get_double json j "submissiontime"
    subgraphs ← read_optional json (read_subgraph fuel) j "subgraph"
    ok (
        finish_job (record {
          subgraphs = subgraphs;
          job_id = job_id;
          user_id = user_id;
          submission_time = submission_time;
        }))

  -- of a worker or a node manager
  unfoldable pub read_worker : Bool → V → Outcome (Worker W)
  unfolding read_pack load_worker
  read_worker is_worker j = do capacity ← read_pack j; load_worker is_worker capacity

-- ===== src/Job.antt =====
-- src/job/shard_task.h, subgraph.h (class SubGraph) and job.h: tasks, subgraphs and jobs. The capacity
-- of a subgraph's memory, which needs a maximum flow, is in `Flow`.
use h_axe_simulation.Prelude.{
  ◌≡◌, ◌↔◌, Bool, true, false, ◌&&◌, List, [], ◌∷◌, map, Outcome, ok, fail, ◌>>=◌, or_fail,
  out_of_range, if◌then◌else◌, arith, set, get_elem?,
}
use h_axe_simulation.Prelude.Int.{ℤ, pos, negsuc, eqb_ℤ}
use h_axe_simulation.Number.{Double, ◌⊕◌, one_double, zero_double}
use h_axe_simulation.Resource.{ResourceType, cpu, memory, disk, network, ResourcePack}

pub record ShardTaskId : Type 0 where
  pub task_id : ℤ
  pub shard_id : ℤ

-- Keys of a `std::map` are one when neither is below the other, that is, when both parts agree.
unfoldable pub key_eq : ShardTaskId → ShardTaskId → Bool
key_eq a b = eqb_ℤ a.task_id b.task_id && eqb_ℤ a.shard_id b.shard_id

pub key_eq_iff : (a b : ShardTaskId) → (key_eq a b ≡ true) ↔ (a ≡ b)
unfolding key_eq
key_eq_iff a b = ground arith

pub record ShardTask (W : Type 0) : Type 0 where
  pub task_id : ℤ
  pub job_id : ℤ
  pub shard_id : ℤ
  pub resource_type : ResourceType
  pub memory_need : W
  pub req : W
  pub children : List ShardTaskId

abbrev pub id_of : {W : Type 0} → ShardTask W → ShardTaskId
id_of t = record { task_id = t.task_id; shard_id = t.shard_id }

pub record SubGraph (W : Type 0) : Type 0 where
  pub memory_cap : ℤ
  pub job_id : ℤ
  pub is_worker : Bool
  pub resource_pack : ResourcePack W
  pub shard_tasks : List (ShardTask W)
  pub data_locality : List ℤ
  pub worker_id : ℤ

pub record Job (W : Type 0) : Type 0 where
  pub subgraphs : List (SubGraph W)
  pub job_id : ℤ
  pub user_id : ℤ
  pub submission_time : W

-- `worker_id_` of a subgraph that no worker runs.
abbrev pub unplaced : ℤ
unplaced = negsuc 0

module _ {W : Type 0} where
  -- `SubGraph::SetJobID`
  unfoldable pub set_job_id : ℤ → SubGraph W → SubGraph W
  set_job_id j sg = record sg {
    job_id = j;
    shard_tasks = map (λ (t : ShardTask W). record t { job_id = j }) sg.shard_tasks;
  }

  -- The last lines of `from_json` of a job.
  unfoldable pub finish_job : Job W → Job W
  unfolding set_job_id
  finish_job job = record job { subgraphs = map (set_job_id job.job_id) job.subgraphs }

  -- `Job::SetWorkerID`
  unfoldable pub set_worker_id : Job W → ℤ → ℤ → Outcome (Job W)
  set_worker_id job (negsuc n) w = fail out_of_range
  set_worker_id job (pos n) w = do
    sg ← or_fail (get_elem? job.subgraphs n) out_of_range
    ok (record job { subgraphs = set job.subgraphs n (record sg { worker_id = w }) })

  -- `Job::SetIsNodeManager`
  unfoldable pub set_is_node_manager : Job W → Job W
  set_is_node_manager job = record job {
    subgraphs = map (λ (sg : SubGraph W). record sg { is_worker = false }) job.subgraphs;
  }

module _ {W : Type 0} ⦃d : Double W⦄ where
  -- One round of the loops of `SetResourcesReq`, for a worker and for a node manager.
  unfoldable pub demand_of : ShardTask W → ResourceType → ResourcePack W → ResourcePack W
  demand_of st cpu p = record p { cpu_of = p.cpu_of ⊕ st.req }
  demand_of st memory p = p
  demand_of st disk p = record p { disk_of = p.disk_of ⊕ st.req }
  demand_of st network p = record p { network_of = p.network_of ⊕ st.req }

  slot_of : ResourceType → ResourcePack W → ResourcePack W
  slot_of cpu p = record p { cpu_of = p.cpu_of ⊕ one_double }
  slot_of _ p = p

  unfoldable pub worker_demand : List (ShardTask W) → ResourcePack W → ResourcePack W
  unfolding demand_of
  worker_demand [] p = p
  worker_demand (st ∷ sts) p = worker_demand sts (demand_of st st.resource_type p)

  pub manager_demand : List (ShardTask W) → ResourcePack W → ResourcePack W
  unfolding slot_of
  manager_demand [] p = p
  manager_demand (st ∷ sts) p = manager_demand sts (slot_of st.resource_type p)

  -- `SetResourcesReq`, with the memory capacity that `GetMemoryCap` returns.
  unfoldable pub set_resources_req : W → SubGraph W → SubGraph W
  unfolding worker_demand manager_demand
  set_resources_req cap sg =
      if sg.is_worker
      then record sg {
        resource_pack = record (worker_demand sg.shard_tasks sg.resource_pack) { memory_of = cap };
      }
      else record sg {
        resource_pack = record (manager_demand sg.shard_tasks sg.resource_pack) {
          disk_of = zero_double;
          network_of = zero_double;
          memory_of = cap;
        };
      }

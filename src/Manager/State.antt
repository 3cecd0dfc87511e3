-- ===== src/Manager/State.antt =====
-- src/job_manager.h: the members of a `JobManager`, `BuildDependencies` and `GenerateResourceRequest`. A
-- map that is only read by `operator[]` is a function, which gives 0 for a key that is not there.
use h_axe_simulation.Prelude.{
  ℕ, suc, Bool, true, false, not, List, [], ◌∷◌, Outcome, ok, ◌>>=◌, or_fail, out_of_range,
  if◌then◌else◌, ◌==◌, get_elem?,
}
use h_axe_simulation.Prelude.Int.{pos}
use h_axe_simulation.Resource.{ResourceRequest}
use h_axe_simulation.Job.{ShardTaskId, key_eq, id_of, ShardTask, SubGraph, Job, set_is_node_manager}

pub record Manager (W : Type 0) : Type 0 where
  pub job : Job W
  pub finish_subgraph_num : ℕ
  pub subgraph_finished_task : ℕ → ℕ
  -- `id_to_shard_task_`, the latest entry first
  pub tasks : List (ShardTaskId × ShardTask W)
  pub subgraph_of : ShardTaskId → ℕ
  pub subgraph_to_req : ℕ → Bool
  pub dep_counter : ShardTaskId → ℕ
  pub dep_finish_counter : ShardTaskId → ℕ
  pub subgraph_dep_counter : ℕ → ℕ
  pub subgraph_dep_finish_counter : ℕ → ℕ

-- `m[k] = v`
abbrev pub put {ℓ κ} : {K : Type ℓ} {V : Type κ} → (K → K → Bool) → K → V → (K → V) → K → V
put same k v m j = if same j k then v else m j

-- `m[k]++`
abbrev pub bump {ℓ} : {K : Type ℓ} → (K → K → Bool) → K → (K → ℕ) → K → ℕ
bump same k m = put same k (suc (m k)) m

unfoldable pub bump_all : List ShardTaskId → (ShardTaskId → ℕ) → ShardTaskId → ℕ
unfolding key_eq
bump_all [] m = m
bump_all (child ∷ children) m = bump_all children (bump key_eq child m)

module _ {W : Type 0} where
  -- The first pair of loops of `BuildDependencies`: a task of subgraph `i`.
  unfoldable pub note_task : ℕ → ShardTask W → Manager W → Manager W
  unfolding bump_all key_eq
  note_task i st m = record m {
    subgraph_of = put key_eq (id_of st) i m.subgraph_of;
    subgraph_finished_task = put ◌==◌ i 0 m.subgraph_finished_task;
    tasks = (id_of st, st) ∷ m.tasks;
    dep_counter = bump_all st.children m.dep_counter;
  }

  unfoldable pub note_tasks : ℕ → List (ShardTask W) → Manager W → Manager W
  unfolding note_task
  note_tasks i [] m = m
  note_tasks i (st ∷ sts) m = note_tasks i sts (note_task i st m)

  unfoldable pub note_subgraphs : ℕ → List (SubGraph W) → Manager W → Manager W
  unfolding note_tasks
  note_subgraphs i [] m = m
  note_subgraphs i (sg ∷ sgs) m = note_subgraphs (suc i) sgs (note_tasks i sg.shard_tasks m)

  -- The second pair of loops: an edge from a task of subgraph `i` to a child in another one.
  unfoldable pub note_edge : ℕ → ShardTaskId → Manager W → Manager W
  note_edge i child m =
      if not (m.subgraph_of child == i)
      then record m {
        subgraph_dep_counter = bump ◌==◌ (m.subgraph_of child) m.subgraph_dep_counter;
      }
      else m

  unfoldable pub note_edges : ℕ → List ShardTaskId → Manager W → Manager W
  unfolding note_edge
  note_edges i [] m = m
  note_edges i (child ∷ children) m = note_edges i children (note_edge i child m)

  unfoldable pub note_task_edges : ℕ → List (ShardTask W) → Manager W → Manager W
  unfolding note_edges
  note_task_edges i [] m = m
  note_task_edges i (st ∷ sts) m = note_task_edges i sts (note_edges i st.children m)

  unfoldable pub note_subgraph_edges : ℕ → List (SubGraph W) → Manager W → Manager W
  unfolding note_task_edges
  note_subgraph_edges i [] m = m
  note_subgraph_edges i (sg ∷ sgs) m =
      note_subgraph_edges (suc i) sgs (note_task_edges i sg.shard_tasks m)

  -- `BuildDependencies`
  unfoldable pub build_dependencies : Manager W → Manager W
  unfolding note_subgraphs note_subgraph_edges
  build_dependencies m = note_subgraph_edges 0 m.job.subgraphs (note_subgraphs 0 m.job.subgraphs m)

  abbrev pub empty_manager : Job W → Manager W
  empty_manager job = record {
    job = job;
    finish_subgraph_num = 0;
    subgraph_finished_task = λ _. 0;
    tasks = [];
    subgraph_of = λ _. 0;
    subgraph_to_req = λ _. false;
    dep_counter = λ _. 0;
    dep_finish_counter = λ _. 0;
    subgraph_dep_counter = λ _. 0;
    subgraph_dep_finish_counter = λ _. 0;
  }

  -- The constructor; `yarn` says that the executor is "YARN".
  unfoldable pub new_manager : Bool → Job W → Manager W
  unfolding build_dependencies set_is_node_manager
  new_manager yarn job =
      build_dependencies (empty_manager (if yarn then set_is_node_manager job else job))

  abbrev pub request_of : Manager W → ℕ → SubGraph W → ResourceRequest W
  request_of m id sg = record {
    job_id = m.job.job_id;
    subgraph_id = pos id;
    data_locality = sg.data_locality;
    resource = sg.resource_pack;
  }

  -- A task of the list waits for no other.
  unfoldable pub has_root : Manager W → List (ShardTask W) → Bool
  has_root m [] = false
  has_root m (st ∷ sts) = if m.dep_counter (id_of st) == 0 then true else has_root m sts

  -- `GenerateResourceRequest` for an admission, from subgraph `id` on.
  unfoldable pub admission_requests :
      ℕ → List (SubGraph W) → Manager W → Manager W × List (ResourceRequest W)
  unfolding has_root
  admission_requests id [] m = (m, [])
  admission_requests id (sg ∷ sgs) m =
      let root = has_root m sg.shard_tasks in
      let noted =
        if root then record m { subgraph_to_req = put ◌==◌ id true m.subgraph_to_req } else m in
      let (m', reqs) = admission_requests (suc id) sgs noted in
      (m', if root then request_of m id sg ∷ reqs else reqs)

  -- `GenerateResourceRequest` for the end of a task, with its child.
  unfoldable pub child_requests :
      ShardTaskId → Manager W → Outcome (Manager W × List (ResourceRequest W))
  child_requests child m = if m.subgraph_to_req (m.subgraph_of child) then ok (m, []) else (do
    sg ← or_fail (get_elem? m.job.subgraphs (m.subgraph_of child)) out_of_range
    ok (
      record m { subgraph_to_req = put ◌==◌ (m.subgraph_of child) true m.subgraph_to_req },
      request_of m (m.subgraph_of child) sg ∷ [],
    ))

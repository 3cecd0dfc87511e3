-- ===== src/Manager/Handlers.antt =====
-- src/job_manager.h: the handlers of `RegisterHandlers`. The workers and the users, which all managers
-- share, are passed on with the count of events.
use h_axe_simulation.Prelude.{
  ℕ, suc, List, [], ◌∷◌, ◌++◌, Option, none, some, Outcome, ok, fail, ◌>>=◌, or_fail, out_of_range,
  undefined, no_handler, if◌then◌else◌, ◌==◌, get_elem?, set, length,
}
use h_axe_simulation.Prelude.Int.{ℤ, pos, negsuc, at, eqb_ℤ}
use h_axe_simulation.Number.{Double, whole}
use h_axe_simulation.Resource.{ResourceRequest}
use h_axe_simulation.Job.{ShardTaskId, key_eq, id_of, ShardTask, SubGraph, unplaced, set_worker_id}
use h_axe_simulation.Event.{
  Event, EventType, task_finish, job_admission, placement_decision, Members, decision,
  finished_task, scheduler_principal,
}
use h_axe_simulation.Worker.State.{Worker, Shared, new_event}
use h_axe_simulation.Worker.Machine as Machine
use h_axe_simulation.Worker.Machine.{place_new_task, subgraph_finish}
use h_axe_simulation.User.{User, user_placement, user_task_finish, user_subgraph_finish}
use h_axe_simulation.Manager.State.{Manager, put, bump, admission_requests, child_requests}

pub record Cluster (W : Type 0) : Type 0 where
  pub workers : List (Worker W)
  pub users : List (User W)
  pub shared : Shared W

abbrev pub Managed : Type 0 → Type 0
Managed W = Manager W × Cluster W × List (Event W)

-- `v.at(i)` changed in place.
abbrev pub modify {ℓ} : {A : Type ℓ} → List A → ℤ → (A → A) → Outcome (List A)
modify xs (negsuc n) f = fail out_of_range
modify xs (pos n) f = do x ← or_fail (get_elem? xs n) out_of_range; ok (set xs n (f x))

-- The task that `id_to_shard_task_` holds. For a key that is not there `operator[]` makes a task whose
-- members have no value.
abbrev pub find_task :
    {W : Type 0} → ShardTaskId → List (ShardTaskId × ShardTask W) → Option (ShardTask W)
find_task k [] = none
find_task k ((j, t) ∷ m) = if key_eq j k then some t else find_task k m

module _ {W : Type 0} ⦃d : Double W⦄ where
  -- A call of `workers_.at(i)` that returns events.
  unfoldable pub on_worker :
      ℤ
      → (Worker W → Shared W → Outcome (Worker W × Shared W × List (Event W)))
      → Cluster W
      → Outcome (Cluster W × List (Event W))
  on_worker (negsuc n) f c = fail out_of_range
  on_worker (pos n) f c = do
    w ← or_fail (get_elem? c.workers n) out_of_range
    (w', s', events) ← f w c.shared
    ok (record c { workers = set c.workers n w'; shared = s' }, events)

  -- The loops that make an event of each request.
  unfoldable pub request_events :
      W → List (ResourceRequest W) → Cluster W → Cluster W × List (Event W)
  unfolding new_event
  request_events time [] c = (c, [])
  request_events time (req ∷ reqs) c =
      let (event, s') =
        new_event EventType.new_task_req time (pos 0) scheduler_principal (Members.request req)
          c.shared in
      let (c', events) = request_events time reqs (record c { shared = s' }) in (c', event ∷ events)

  -- The handler of an admission
  unfoldable pub handle_admission : Event W → Manager W → Cluster W → Outcome (Managed W)
  unfolding request_events admission_requests
  handle_admission event m c =
      let (m', reqs) = admission_requests 0 m.job.subgraphs m in
      let (c', events) = request_events event.time reqs c in ok (m', c', events)

  -- The loop of a decision over the tasks of the subgraph: those that wait for no other are placed.
  unfoldable pub place_ready :
      W → ℤ → Manager W → List (ShardTask W) → Cluster W → Outcome (Cluster W × List (Event W))
  unfolding on_worker
  place_ready time worker_id m [] c = ok (c, [])
  place_ready time worker_id m (st ∷ sts) c = do
    (c1, events) ←
        (if m.dep_counter (id_of st) == m.dep_finish_counter (id_of st)
          then on_worker worker_id (place_new_task time st) c
          else ok (c, []))
    (c2, later) ← place_ready time worker_id m sts c1
    ok (c2, events ++ later)

  unfoldable pub place_subgraph :
      W → (worker_id subgraph_id : ℤ) → Manager W → Cluster W → Outcome (Managed W)
  unfolding place_ready set_worker_id user_placement
  place_subgraph time worker_id subgraph_id m c = do
    job ← set_worker_id m.job subgraph_id worker_id
    sg ← or_fail (at job.subgraphs subgraph_id) out_of_range
    users ← modify c.users job.user_id (user_placement time sg.resource_pack)
    (c', events) ← place_ready time worker_id m sg.shard_tasks (record c { users = users })
    ok (record m { job = job }, c', events)

  -- The handler of a decision
  unfoldable pub handle_placement : Event W → Manager W → Cluster W → Outcome (Managed W)
  unfolding place_subgraph
  handle_placement event m c = elim event.members [
    | decision worker_id subgraph_id ↦ place_subgraph event.time worker_id subgraph_id m c
    | _ ↦ fail undefined
  ]

  -- What the end of a subgraph does, if this task was its last.
  unfoldable pub end_subgraph : W → ℕ → SubGraph W → Manager W → Cluster W → Outcome (Managed W)
  unfolding subgraph_finish user_subgraph_finish new_event
  end_subgraph time subgraph_id sg m c =
      let (event, s') =
        new_event EventType.job_finish time (pos 0) scheduler_principal
          (Members.finished_job m.job.job_id m.job.submission_time) c.shared in
      if length sg.shard_tasks == m.subgraph_finished_task subgraph_id
      then (do
        let mem = whole sg.memory_cap
        (c1, _) ←
            on_worker sg.worker_id (λ w s. do w' ← subgraph_finish time mem w; ok (w', s, [])) c
        users ← modify c1.users m.job.user_id (user_subgraph_finish time mem)
        let m' = record m { finish_subgraph_num = suc m.finish_subgraph_num }
        if m'.finish_subgraph_num == length m.job.subgraphs
            then ok (m', record c1 { users = users; shared = s' }, event ∷ [])
            else ok (m', record c1 { users = users }, []))
      else ok (m, c, [])

  -- What a child does whose last parent has ended.
  unfoldable pub ready_child : W → ShardTaskId → Manager W → Cluster W → Outcome (Managed W)
  unfolding request_events on_worker child_requests
  ready_child time child m c = do
    sg ← or_fail (get_elem? m.job.subgraphs (m.subgraph_of child)) out_of_range
    if eqb_ℤ sg.worker_id unplaced
        then (if m.subgraph_dep_finish_counter (m.subgraph_of child)
              == m.subgraph_dep_counter (m.subgraph_of child)
            then (do
              (m', reqs) ← child_requests child m
              let (c', events) = request_events time reqs c
              ok (m', c', events))
            else ok (m, c, []))
        else (do
          task ← or_fail (find_task child m.tasks) undefined
          (c', events) ← on_worker sg.worker_id (place_new_task time task) c
          ok (m, c', events))

  -- One round of the loop over the children of a task that ended.
  unfoldable pub visit_child : W → ShardTaskId → Manager W → Cluster W → Outcome (Managed W)
  unfolding ready_child
  visit_child time child m c =
      let m' = record m {
        dep_finish_counter = bump key_eq child m.dep_finish_counter;
        subgraph_dep_finish_counter = bump ◌==◌ (m.subgraph_of child) m.subgraph_dep_finish_counter;
      } in
      if m'.dep_finish_counter child == m'.dep_counter child
      then ready_child time child m' c
      else ok (m', c, [])

  unfoldable pub visit_children : W → List ShardTaskId → Manager W → Cluster W → Outcome (Managed W)
  unfolding visit_child
  visit_children time [] m c = ok (m, c, [])
  visit_children time (child ∷ children) m c = do
    (m1, c1, events) ← visit_child time child m c
    (m2, c2, later) ← visit_children time children m1 c1
    ok (m2, c2, events ++ later)

  unfoldable pub finish_task : W → ℕ → ShardTask W → Manager W → Cluster W → Outcome (Managed W)
  unfolding on_worker user_task_finish end_subgraph visit_children new_event
  finish_task time event_id task m c = do
    let subgraph_id = m.subgraph_of (id_of task)
    sg ← or_fail (get_elem? m.job.subgraphs subgraph_id) out_of_range
    (c1, events) ← on_worker sg.worker_id (Machine.task_finish time event_id task) c
    users ← modify c1.users m.job.user_id (user_task_finish time task)
    let m1 = record m {
      subgraph_finished_task =
          put ◌==◌ subgraph_id (suc (m.subgraph_finished_task subgraph_id))
            m.subgraph_finished_task;
    }
    (m2, c2, ended) ← end_subgraph time subgraph_id sg m1 (record c1 { users = users })
    (m3, c3, later) ← visit_children time task.children m2 c2
    let (available, s') =
        new_event EventType.resource_available time (pos 0) scheduler_principal Members.nothing
          c3.shared
    ok (m3, record c3 { shared = s' }, events ++ ended ++ later ++ available ∷ [])

  -- The handler of the end of a task
  unfoldable pub handle_task_finish : Event W → Manager W → Cluster W → Outcome (Managed W)
  unfolding finish_task
  handle_task_finish event m c = elim event.members [
    | finished_task task ↦ finish_task event.time event.event_id task m c
    | _ ↦ fail undefined
  ]

  -- `Handle`: an event of another type finds an empty function.
  unfoldable pub manager_handle : EventType → Event W → Manager W → Cluster W → Outcome (Managed W)
  unfolding handle_admission handle_placement handle_task_finish
  manager_handle job_admission = handle_admission
  manager_handle placement_decision = handle_placement
  manager_handle task_finish = handle_task_finish
  manager_handle _ = λ _ _ _. fail no_handler

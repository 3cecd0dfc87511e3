-- ===== src/Manager/Admission.antt =====
-- src/job_manager.h: which subgraphs are requested when a job is admitted.
use h_axe_simulation.Prelude.{
  ℕ, suc, ◌≡◌, refl, ap, ◌∙◌, Bool, not, true, false, inl, inr, List, [], ◌∷◌, map, Option, some,
  none, ok, Bool-cases, if◌then◌else◌, ◌==◌,
}
use h_axe_simulation.Prelude.Int.{ℤ, pos}
use h_axe_simulation.Number.{Double}
use h_axe_simulation.Resource.{ResourceRequest}
use h_axe_simulation.Job.{ShardTaskId, id_of, ShardTask, SubGraph, Job}
use h_axe_simulation.Event.{Event, request}
use h_axe_simulation.Worker.State.{new_event}
use h_axe_simulation.Manager.State.{
  Manager, note_task, note_tasks, note_subgraphs, note_edge, note_edges, note_task_edges,
  note_subgraph_edges, has_root, admission_requests, new_manager, build_dependencies, empty_manager,
}
use h_axe_simulation.Manager.Handlers.{Cluster, request_events, handle_admission}
use h_axe_simulation.Manager.Dependencies.{parents, build_dependencies_lem}

-- The subgraph that an event asks a worker for.
abbrev pub asks_for : {W : Type 0} → Event W → Option ℤ
asks_for e = elim e.members [ request req ↦ some req.subgraph_id | _ ↦ none ]

keep_both :
    {X Y : Type 0} {a b c : X} {x y z : Y}
    → (b ≡ a) × (y ≡ x)
    → (c ≡ b) × (z ≡ y)
    → (c ≡ a) × (z ≡ x)
keep_both (p, q) (p', q') = (p' ∙ p, q' ∙ q)

module _ {W : Type 0} where
  -- A task of the list has no parent in the job.
  abbrev pub has_start : List (SubGraph W) → List (ShardTask W) → Bool
  has_start job [] = false
  has_start job (st ∷ sts) = if parents (id_of st) job == 0 then true else has_start job sts

  -- The numbers of the subgraphs with such a task, from number `i` on.
  abbrev pub starts : List (SubGraph W) → ℕ → List (SubGraph W) → List ℕ
  starts job i [] = []
  starts job i (sg ∷ sgs) =
      if has_start job sg.shard_tasks then i ∷ starts job (suc i) sgs else starts job (suc i) sgs

  -- `BuildDependencies` leaves the job and the notes of requests as they are.
  abbrev pub Keeps : Manager W → Manager W → Type 0
  Keeps m n = (n.job ≡ m.job) × (n.subgraph_to_req ≡ m.subgraph_to_req)

  note_subgraphs-Keeps :
      (i : ℕ) (sgs : List (SubGraph W)) (m : Manager W) → Keeps m (note_subgraphs i sgs m)
  unfolding note_subgraphs note_tasks note_task
  note_subgraphs-Keeps i [] m = (refl, refl)
  note_subgraphs-Keeps i (sg ∷ sgs) m =
      keep_both (go sg.shard_tasks m)
        (note_subgraphs-Keeps (suc i) sgs (note_tasks i sg.shard_tasks m))
    where
      go : (sts : List (ShardTask W)) (m : Manager W) → Keeps m (note_tasks i sts m)
      go [] m = (refl, refl)
      go (st ∷ sts) m = go sts (note_task i st m)

  note_edges-Keeps :
      (i : ℕ) (children : List ShardTaskId) (m : Manager W) → Keeps m (note_edges i children m)
  unfolding note_edges note_edge
  note_edges-Keeps i [] m = (refl, refl)
  note_edges-Keeps i (child ∷ children) m =
      keep_both (go (not (m.subgraph_of child == i)) refl)
        (note_edges-Keeps i children (note_edge i child m))
    where
      go : (b : Bool) → not (m.subgraph_of child == i) ≡ b → Keeps m (note_edge i child m)
      go true e = rw (note_edge, e) (refl, refl)
      go false e = rw (note_edge, e) (refl, refl)

  note_subgraph_edges-Keeps :
      (i : ℕ) (sgs : List (SubGraph W)) (m : Manager W) → Keeps m (note_subgraph_edges i sgs m)
  unfolding note_subgraph_edges note_task_edges
  note_subgraph_edges-Keeps i [] m = (refl, refl)
  note_subgraph_edges-Keeps i (sg ∷ sgs) m =
      keep_both (go sg.shard_tasks m)
        (note_subgraph_edges-Keeps (suc i) sgs (note_task_edges i sg.shard_tasks m))
    where
      go : (sts : List (ShardTask W)) (m : Manager W) → Keeps m (note_task_edges i sts m)
      go [] m = (refl, refl)
      go (st ∷ sts) m =
          keep_both (note_edges-Keeps i st.children m) (go sts (note_edges i st.children m))

  pub build_dependencies-Keeps : (m : Manager W) → Keeps m (build_dependencies m)
  unfolding build_dependencies
  build_dependencies-Keeps m =
      keep_both (note_subgraphs-Keeps 0 m.job.subgraphs m)
        (note_subgraph_edges-Keeps 0 m.job.subgraphs (note_subgraphs 0 m.job.subgraphs m))

  has_root-has_start :
      (job : List (SubGraph W)) (m : Manager W) (sts : List (ShardTask W))
      → ((c : ShardTaskId) → m.dep_counter c ≡ parents c job)
      → has_root m sts ≡ has_start job sts
  unfolding has_root
  has_root-has_start job m [] h = refl
  has_root-has_start job m (st ∷ sts) h = rw (h (id_of st), has_root-has_start job m sts h) refl

  admission_requests_lem :
      (job : List (SubGraph W)) (i : ℕ) (sgs : List (SubGraph W)) (m : Manager W)
      → ((c : ShardTaskId) → m.dep_counter c ≡ parents c job)
      → map (λ (r : ResourceRequest W). some r.subgraph_id) ((admission_requests i sgs m).1)
        ≡ map (λ n. some (pos n)) (starts job i sgs)
  unfolding admission_requests
  admission_requests_lem job i [] m h = refl
  admission_requests_lem job i (sg ∷ sgs) m h = elim (Bool-cases (has_start job sg.shard_tasks)) [
    | inl e ↦
        rw (has_root-has_start job m sg.shard_tasks h, e)
          (ap (λ l. some (pos i) ∷ l) (admission_requests_lem job (suc i) sgs _ h))
    | inr e ↦
        rw (has_root-has_start job m sg.shard_tasks h, e)
          (admission_requests_lem job (suc i) sgs m h)
  ]

module _ {W : Type 0} ⦃d : Double W⦄ where
  request_events_lem :
      (time : W) (reqs : List (ResourceRequest W)) (c : Cluster W)
      → map asks_for ((request_events time reqs c).1)
        ≡ map (λ (r : ResourceRequest W). some r.subgraph_id) reqs
  unfolding request_events new_event
  request_events_lem time [] c = refl
  request_events_lem time (req ∷ reqs) c =
      ap (λ l. some req.subgraph_id ∷ l) (request_events_lem time reqs _)

-- The admission of a job whose manager is new returns. It asks for exactly the subgraphs with a task that
-- no task of the job names as its child, each once, in the order of their numbers.
pub handle_admission_lem :
    {W : Type 0} ⦃d : Double W⦄ (job : Job W) (event : Event W) (c : Cluster W)
    → (m' : Manager W) × (c' : Cluster W) × (events : List (Event W)) × (handle_admission event
          (new_manager false job)
          c
        ≡ ok (m', c', events))
      × (map asks_for events ≡ map (λ n. some (pos n)) (starts job.subgraphs 0 job.subgraphs))
unfolding handle_admission new_manager
handle_admission_lem job event c =
    let m = new_manager false job in
    let reqs = admission_requests 0 m.job.subgraphs m in
    (
      reqs.0,
      (request_events event.time reqs.1 c).0,
      (request_events event.time reqs.1 c).1,
      refl,
      request_events_lem event.time reqs.1 c
          ∙ admission_requests_lem job.subgraphs 0 m.job.subgraphs m
              (λ k. (build_dependencies_lem job k 0).0)
          ∙ ap (λ (j : Job _). map (λ n. some (pos n)) (starts job.subgraphs 0 j.subgraphs))
              ((build_dependencies-Keeps (empty_manager job)).0),
    )

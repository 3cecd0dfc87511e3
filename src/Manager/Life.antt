-- ===== src/Manager/Life.antt =====
-- src/job_manager.h: what a manager does from the admission of its job on.
use h_axe_simulation.Prelude.{
  ℕ, suc, ◌+◌, ◌≤◌, inl, inr, ◌≡◌, ap, Bool, true, false, List, [], ◌∷◌, ◌++◌, ok, Ensures,
  Ensures-ok, arith, Bool-cases, if◌then◌else◌, ◌==◌,
}
use h_axe_simulation.Number.{Double}
use h_axe_simulation.Job.{Job, SubGraph, set_is_node_manager}
use h_axe_simulation.Event.{Event}
use h_axe_simulation.Manager.State.{
  Manager, put, admission_requests, has_root, new_manager, empty_manager,
}
use h_axe_simulation.Manager.Handlers.{
  Cluster, handle_admission, handle_placement, handle_task_finish,
}
use h_axe_simulation.Manager.Admission.{build_dependencies-Keeps}
use h_axe_simulation.Manager.Requests.{
  asked, requests, requests-append, request_events-asked, noted, Asks,
}
use h_axe_simulation.Manager.Requests.Handlers.{handle_placement-Asks, handle_task_finish-Asks}

-- A manager that has been made for a job and has handled its admission, then decisions and ends of
-- tasks, with all events that it returned. What it shares with others may change in between.
pub data Life {W : Type 0} ⦃d : Double W⦄ (yarn : Bool) (job : Job W)
    : Manager W → List (Event W) → Type 0 where
  admitted :
      (event : Event W) (c c' : Cluster W) (m : Manager W) (events : List (Event W))
      → handle_admission event (new_manager yarn job) c ≡ ok (m, c', events)
      → Life yarn job m events
  decided :
      (event : Event W) (c c' : Cluster W) (m m' : Manager W) (events more : List (Event W))
      → Life yarn job m events
      → handle_placement event m c ≡ ok (m', c', more)
      → Life yarn job m' (events ++ more)
  finished :
      (event : Event W) (c c' : Cluster W) (m m' : Manager W) (events more : List (Event W))
      → Life yarn job m events
      → handle_task_finish event m c ≡ ok (m', c', more)
      → Life yarn job m' (events ++ more)

module _ {W : Type 0} where
  -- From subgraph `k` on nothing has been asked for.
  abbrev Unasked : ℕ → Manager W → Type 0
  Unasked k m = (i : ℕ) → k ≤ i → m.subgraph_to_req i ≡ false

  admission_requests-asked :
      (i k : ℕ) (sgs : List (SubGraph W)) (m : Manager W)
      → Unasked k m
      → let (m', reqs) = admission_requests k sgs m in asked i reqs + noted i m ≡ noted i m'
  unfolding admission_requests
  admission_requests-asked i k [] m h = omega arith
  admission_requests-asked i k (sg ∷ sgs) m h = elim (Bool-cases (has_root m sg.shard_tasks)) [
    | inl e ↦
        let noted_k : Manager W = record m {
          subgraph_to_req = put ◌==◌ k true m.subgraph_to_req;
        } in
        let later : Unasked (suc k) noted_k = λ j g. let before = h j in ground arith in
        let ih = admission_requests-asked i (suc k) sgs noted_k later in
        let here = h i in rw e (ground arith)
    | inr e ↦
        let ih = admission_requests-asked i (suc k) sgs m (λ j g. h j (omega arith)) in rw e ih
  ]

  new_manager-Unasked : (yarn : Bool) (job : Job W) → Unasked 0 (new_manager yarn job)
  unfolding new_manager
  new_manager-Unasked yarn job i h =
      ap (λ f. f i)
        (build_dependencies-Keeps (empty_manager (if yarn then set_is_node_manager job else job))).1

module _ {W : Type 0} ⦃d : Double W⦄ where
  admission-Asks :
      (i : ℕ) (yarn : Bool) (job : Job W) (event : Event W) (c : Cluster W)
      → Ensures (Asks i (new_manager yarn job)) (handle_admission event (new_manager yarn job) c)
  unfolding handle_admission
  admission-Asks i yarn job event c =
      let first = new_manager yarn job in
      let made = admission_requests 0 first.job.subgraphs first in
      let counted =
        admission_requests-asked i 0 first.job.subgraphs first (new_manager-Unasked yarn job) in
      let sent = request_events-asked i event.time made.1 c in omega (arith, counted, sent)

-- Over the life of a manager, from the admission of its job on and through any decisions and ends of
-- tasks, each subgraph is asked for at most once: once if the manager has noted that it asked for it, and
-- not at all if not.
pub requests_once :
    {W : Type 0} ⦃d : Double W⦄ (yarn : Bool) (job : Job W) (m : Manager W)
    (events : List (Event W))
    → Life yarn job m events
    → (i : ℕ) → requests i events ≡ noted i m
requests_once yarn job m events (Life.admitted event c c' n es e) i =
    let now = Ensures-ok (Asks i (new_manager yarn job)) _ (admission-Asks i yarn job event c) e in
    let none_yet = new_manager-Unasked yarn job i (omega arith) in ground (arith, now, none_yet)
requests_once yarn job m events (Life.decided event c c' n n' es more life e) i =
    let ih = requests_once yarn job n es life i in
    let now = Ensures-ok (Asks i n) _ (handle_placement-Asks i event n c) e in
    omega (arith, requests-append i es more, ih, now)
requests_once yarn job m events (Life.finished event c c' n n' es more life e) i =
    let ih = requests_once yarn job n es life i in
    let now = Ensures-ok (Asks i n) _ (handle_task_finish-Asks i event n c) e in
    omega (arith, requests-append i es more, ih, now)

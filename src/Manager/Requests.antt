-- ===== src/Manager/Requests.antt =====
-- src/job_manager.h: how often a subgraph is asked for while its job runs.
pub mod Handlers
use mathlib.Core.Path.{subst}
use h_axe_simulation.Prelude.{
  ℕ, zero, suc, ◌+◌, ◌≤◌, inl, inr, ◌≡◌, refl, sym, ◌∙◌, ap, Bool, true, false, List, [], ◌∷◌, ◌++◌,
  Outcome, ok, fail, ◌>>=◌, or_fail, out_of_range, undefined, Ensures, Ensures-bind, Ensures-ok,
  Ensures-if, Ensures-map, arith, Bool-cases, if◌then◌else◌, ◌==◌, get_elem?, length, All,
}
use h_axe_simulation.Prelude.Int.{ℤ, pos, eqb_ℤ, at}
use h_axe_simulation.Number.{Double, whole}
use h_axe_simulation.Resource.{ResourceRequest}
use h_axe_simulation.Job.{
  Job, ShardTaskId, key_eq, ShardTask, SubGraph, unplaced, id_of, set_worker_id,
}
use h_axe_simulation.Event.{Event, EventType, Members}
use h_axe_simulation.Worker.State.{Worker, Shared, new_event}
use h_axe_simulation.Worker.Machine.{place_new_task, task_finish}
use h_axe_simulation.Worker.Events.{
  IsFinish, Finishes, place_new_task-Finishes, task_finish-Finishes,
}
use h_axe_simulation.Manager.State.{
  Manager, put, bump, child_requests, admission_requests, has_root, request_of,
}
use h_axe_simulation.Manager.Handlers.{
  Cluster, Managed, modify, find_task, on_worker, request_events, handle_admission, place_ready,
  place_subgraph, handle_placement, end_subgraph, ready_child, visit_child, visit_children,
  finish_task, handle_task_finish,
}
use h_axe_simulation.Effect.{MakesNone, end_call-MakesNone, on_worker-Ensures}

module _ {W : Type 0} where
  -- The number of events that ask for subgraph `i`.
  abbrev pub asks : ℕ → Members W → ℕ
  asks i (Members.request req) = if eqb_ℤ req.subgraph_id (pos i) then 1 else 0
  asks i (Members.finished_task _) = 0
  asks i Members.nothing = 0
  asks i (Members.finished_job _ _) = 0
  asks i (Members.admitted_job _) = 0
  asks i (Members.decision _ _) = 0
  asks i (Members.submitted_job _) = 0

  abbrev pub requests : ℕ → List (Event W) → ℕ
  requests i [] = 0
  requests i (e ∷ es) = asks i e.members + requests i es

  -- The same of requests that have no event yet.
  abbrev pub asked : ℕ → List (ResourceRequest W) → ℕ
  asked i [] = 0
  asked i (req ∷ reqs) = asks i (Members.request req) + asked i reqs

  -- 1 if the manager has noted that it asked for subgraph `i`.
  abbrev pub noted : ℕ → Manager W → ℕ
  noted i m = if m.subgraph_to_req i then 1 else 0

  pub requests-append :
      (i : ℕ) (es fs : List (Event W)) → requests i (es ++ fs) ≡ requests i es + requests i fs
  requests-append i [] fs = omega arith
  requests-append i (e ∷ es) fs = let ih = requests-append i es fs in omega (arith, ih)

  -- The ends of tasks ask for nothing.
  requests-Finishes : (i : ℕ) (es : List (Event W)) → All IsFinish es → requests i es ≡ 0
  requests-Finishes i [] h = refl
  requests-Finishes i (e ∷ es) ((task, p, q, r), h) =
      let ih = requests-Finishes i es h in rw r (omega (arith, ih))

  -- A handler asks for subgraph `i` when the note of it is made, and only then.
  abbrev pub Asks : ℕ → Manager W → Managed W → Type 0
  Asks i m r = requests i r.2 + noted i m ≡ noted i r.0

  abbrev pub AsksNone : ℕ → Cluster W × List (Event W) → Type 0
  AsksNone i r = requests i r.1 ≡ 0

  pub child_requests-asked :
      (i : ℕ) (child : ShardTaskId) (m : Manager W)
      → Ensures
          (λ (r : Manager W × List (ResourceRequest W)). asked i r.1 + noted i m ≡ noted i r.0)
          (child_requests child m)
  unfolding child_requests
  child_requests-asked i child m =
      Ensures-if _ (m.subgraph_to_req (m.subgraph_of child)) _ _ (λ a. omega arith)
        (λ a.
          Ensures-bind _ (or_fail (get_elem? m.job.subgraphs (m.subgraph_of child)) out_of_range) _
            (λ sg e. ground arith))

module _ {W : Type 0} ⦃d : Double W⦄ (i : ℕ) where
  pub request_events-asked :
      (time : W) (reqs : List (ResourceRequest W)) (c : Cluster W)
      → requests i (request_events time reqs c).1 ≡ asked i reqs
  unfolding request_events new_event
  request_events-asked time [] c = refl
  request_events-asked time (req ∷ reqs) c =
      ap (λ n. asks {W = W} i (Members.request req) + n) (request_events-asked time reqs _)

  pub placing-AsksNone :
      (k : ℤ) (time : W) (task : ShardTask W) (c : Cluster W)
      → Ensures (AsksNone i) (on_worker k (place_new_task time task) c)
  placing-AsksNone k time task c =
      on_worker-Ensures (AsksNone i) k (place_new_task time task) c (λ n w e.
        Ensures-map (place_new_task time task w c.shared)
          (place_new_task-Finishes time task w c.shared) (λ r h. requests-Finishes i r.2 h))

  pub finishing-AsksNone :
      (k : ℤ) (time : W) (event_id : ℕ) (task : ShardTask W) (c : Cluster W)
      → Ensures (AsksNone i) (on_worker k (task_finish time event_id task) c)
  finishing-AsksNone k time event_id task c =
      on_worker-Ensures (AsksNone i) k (task_finish time event_id task) c (λ n w e.
        Ensures-map (task_finish time event_id task w c.shared)
          (task_finish-Finishes time event_id task w c.shared) (λ r h. requests-Finishes i r.2 h))

  pub place_ready-AsksNone :
      (time : W) (k : ℤ) (m : Manager W) (sts : List (ShardTask W)) (c : Cluster W)
      → Ensures (AsksNone i) (place_ready time k m sts c)
  unfolding place_ready
  place_ready-AsksNone time k m [] c = refl
  place_ready-AsksNone time k m (st ∷ sts) c = Ensures-bind (AsksNone i) _ _ (λ (c1, events) e.
      Ensures-bind (AsksNone i) (place_ready time k m sts c1) _ (λ (c2, later) g.
        let one =
          Ensures-ok (AsksNone i) _
            (Ensures-if (AsksNone i) (m.dep_counter (id_of st) == m.dep_finish_counter (id_of st))
              (on_worker k (place_new_task time st) c) (ok (c, []))
              (λ a. placing-AsksNone k time st c) (λ a. refl))
            e in
        let more = Ensures-ok (AsksNone i) _ (place_ready-AsksNone time k m sts c1) g in
        omega (arith, requests-append i events later, one, more)))

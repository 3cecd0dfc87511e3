-- ===== src/Scheduler/Requests.antt =====
-- src/scheduler/simple_scheduler_impl.h: what becomes of the requests.
use mathlib.Core.Path.{subst}
use h_axe_simulation.Prelude.{
  ℕ, suc, ◌≡◌, refl, sym, ap, Bool-cases, inl, inr, ◌∙◌, List, [], ◌∷◌, ◌++◌, map, Outcome, ok,
  length,
}
use h_axe_simulation.Prelude.Int.{ℤ, pos}
use h_axe_simulation.Number.{Double, lt}
use h_axe_simulation.Resource.{ResourceRequest}
use h_axe_simulation.Event.{Event, Members}
use h_axe_simulation.Worker.State.{Worker, Shared, new_event}
use h_axe_simulation.Placement.{RequestQueue, PlacementName, next_worker, task_placement}
use h_axe_simulation.Placement.Fifo.{in_turn, Granted, fifo_lem}
use h_axe_simulation.Scheduler.{
  Scheduler, Handled, insert_request, decision_events, assign_requests, handle_new_req,
}

-- What a manager is told of a decision: the job it goes to, and the worker and the subgraph.
abbrev pub message : {W : Type 0} → Event W → ℤ × Members W
message e = (e.principal, e.members)

abbrev pub answers : {W : Type 0} → ℕ × ResourceRequest W → ℤ × Members W
answers (worker_id, req) = (req.job_id, Members.decision (pos worker_id) req.subgraph_id)

module _ {W : Type 0} ⦃d : Double W⦄ where
  decision_events-messages :
      (time : W) (ds : List (ℕ × ResourceRequest W)) (s : Shared W)
      → map message ((decision_events time ds s).0) ≡ map answers ds
  unfolding decision_events new_event
  decision_events-messages time [] s = refl
  decision_events-messages time ((worker_id, req) ∷ ds) s =
      ap (λ l. (req.job_id, Members.decision (pos worker_id) req.subgraph_id) ∷ l)
        (decision_events-messages time ds _)

  -- Requests that are taken from a queue, granted in turn, and answered.
  abbrev pub Assigns : ℕ → RequestQueue W → List (Worker W) → Outcome (Handled W) → Type 0
  Assigns i queue workers outcome =
      (sch' : Scheduler W) × (workers' : List (Worker W)) × (s' : Shared W) × (events : List
        (Event W))
      × (taken : RequestQueue W) × (outcome ≡ ok (sch', workers', s', events))
      × (queue ≡ taken ++ sch'.req_queue)
      × (map message events ≡ map answers (in_turn i (length workers) taken))
      × Granted (in_turn i (length workers) taken) workers workers'

  assign_requests_lem :
      (time : W) (sch : Scheduler W) (w : Worker W) (ws : List (Worker W)) (s : Shared W)
      (entry : W × ResourceRequest W) (rest : RequestQueue W)
      → sch.algorithm ≡ PlacementName.fifo_name
      → sch.req_queue ≡ entry ∷ rest
      → Assigns
          (next_worker sch.cursor (suc (length ws)))
          sch.req_queue
          (w ∷ ws)
          (assign_requests time sch (w ∷ ws) s)
  unfolding assign_requests task_placement
  assign_requests_lem time sch w ws s entry rest fifo_used queue =
      let (r, taken, e, parts, turns, steps, _) = fifo_lem entry rest w ws sch.cursor in
      let ran : task_placement sch.algorithm sch.req_queue (w ∷ ws) sch.cursor ≡ ok r =
        rw (fifo_used, queue) e in
      (
        record sch { req_queue = r.queue; cursor = r.cursor },
        r.workers,
        (decision_events time r.decisions s).1,
        (decision_events time r.decisions s).0,
        taken,
        rw (assign_requests, ran) refl,
        queue ∙ parts,
        decision_events-messages time r.decisions s ∙ ap (λ ds. map answers ds) turns,
        subst (λ ds. Granted ds (w ∷ ws) r.workers) turns steps,
      )

  pub insert-cons :
      (t : W) (req : ResourceRequest W) (m : RequestQueue W)
      → (entry : W × ResourceRequest W) × (rest : RequestQueue W) × (insert_request (t, req) m
          ≡ entry ∷ rest)
  unfolding insert_request
  insert-cons t req [] = ((t, req), [], refl)
  insert-cons t req ((u, q) ∷ m) = elim (Bool-cases (lt t u)) [
    | inl h ↦ ((t, req), (u, q) ∷ m, rw (insert_request, h) refl)
    | inr h ↦ ((u, q), insert_request (t, req) m, rw (insert_request, h) refl)
  ]

-- A new request under FIFO, with a worker or more, is handled without an abort. The queue with the new
-- request in its place splits into the requests that are taken and those that stay; each request taken is
-- granted to the worker whose turn it is, and its job is told the worker and the subgraph, in that order.
pub handle_new_req_lem :
    {W : Type 0} ⦃d : Double W⦄ (event : Event W) (req : ResourceRequest W) (sch : Scheduler W)
    (w : Worker W) (ws : List (Worker W)) (s : Shared W)
    → event.members ≡ Members.request req
    → sch.algorithm ≡ PlacementName.fifo_name
    → Assigns
        (next_worker sch.cursor (suc (length ws)))
        (insert_request (event.time, req) sch.req_queue)
        (w ∷ ws)
        (handle_new_req event sch (w ∷ ws) s)
unfolding handle_new_req
handle_new_req_lem event req sch w ws s asked fifo_used =
    let (entry, rest, queue) = insert-cons event.time req sch.req_queue in
    subst
      (λ outcome.
        Assigns (next_worker sch.cursor (suc (length ws)))
          (insert_request (event.time, req) sch.req_queue) (w ∷ ws) outcome)
      (sym (rw (handle_new_req, asked) refl))
      (assign_requests_lem event.time
        (record sch { req_queue = insert_request (event.time, req) sch.req_queue }) w ws s entry
        rest fifo_used queue)

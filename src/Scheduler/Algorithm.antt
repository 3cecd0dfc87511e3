-- ===== src/Scheduler/Algorithm.antt =====
-- src/scheduler: the handlers leave the algorithm as it is.
use h_axe_simulation.Prelude.{List, ◌∷◌, ◌≡◌, refl, Ensures, Ensures-bind, List-cases, inl, inr}
use h_axe_simulation.Number.{Double}
use h_axe_simulation.Event.{Event, EventType, Members, submitted_job, request, finished_job}
use h_axe_simulation.Worker.State.{Worker, Shared}
use h_axe_simulation.Placement.{task_placement}
use h_axe_simulation.Scheduler.{
  Scheduler, Handled, insert_request, handle_new_job, assign_requests, handle_new_req,
  handle_resource_available, handle_job_finish, scheduler_handle,
}

module _ {W : Type 0} ⦃d : Double W⦄ (event : Event W) (sch : Scheduler W) (ws : List (Worker W))
    (s : Shared W) where
  abbrev pub SameAlgorithm : Handled W → Type 0
  SameAlgorithm r = r.0.algorithm ≡ sch.algorithm

  assign_requests-SameAlgorithm :
      (time : W) (queue : _)
      → Ensures SameAlgorithm (assign_requests time (record sch { req_queue = queue }) ws s)
  unfolding assign_requests
  assign_requests-SameAlgorithm time queue =
      Ensures-bind SameAlgorithm (task_placement sch.algorithm queue ws sch.cursor) _ (λ r e. refl)

  handler-SameAlgorithm :
      (kind : EventType) (members : Members W)
      → event.members ≡ members
      → Ensures SameAlgorithm (scheduler_handle kind event sch ws s)
  unfolding scheduler_handle handle_new_job handle_new_req handle_resource_available
      handle_job_finish
  handler-SameAlgorithm EventType.new_job (submitted_job job) e = simp (e, handle_new_job) refl
  handler-SameAlgorithm EventType.new_job _ e = simp (e, handle_new_job) tt
  handler-SameAlgorithm EventType.new_task_req (request req) e =
      simp (e, handle_new_req)
        (assign_requests-SameAlgorithm event.time (insert_request (event.time, req) sch.req_queue))
  handler-SameAlgorithm EventType.new_task_req _ e = simp (e, handle_new_req) tt
  handler-SameAlgorithm EventType.job_finish (finished_job i t) e = simp (e, handle_job_finish) refl
  handler-SameAlgorithm EventType.job_finish _ e = simp (e, handle_job_finish) tt
  handler-SameAlgorithm EventType.resource_available _ e = elim (List-cases sch.req_queue) [
    | inl q ↦ simp (q, handle_resource_available) refl
    | inr (entry, rest, q) ↦
        simp (q, handle_resource_available)
          (assign_requests-SameAlgorithm event.time (entry ∷ rest))
  ]
  handler-SameAlgorithm EventType.task_finish _ e = tt
  handler-SameAlgorithm EventType.job_admission _ e = tt
  handler-SameAlgorithm EventType.placement_decision _ e = tt

  pub scheduler_handle-SameAlgorithm :
      Ensures SameAlgorithm (scheduler_handle event.event_type event sch ws s)
  scheduler_handle-SameAlgorithm = handler-SameAlgorithm event.event_type event.members refl

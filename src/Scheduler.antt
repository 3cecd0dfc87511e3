-- ===== src/Scheduler.antt =====
-- src/scheduler/scheduler.h, scheduler_impl.h and simple_scheduler_impl.h: the scheduler and its four
-- handlers. `Report` only prints.
pub mod Queue
pub mod Requests
pub mod Effects
pub mod Returns
pub mod Algorithm
pub mod Tests
use h_axe_simulation.Prelude.{
  ℕ, Bool, List, [], ◌∷◌, ◌++◌, Outcome, ok, fail, ◌>>=◌, undefined, no_handler, if◌then◌else◌,
}
use h_axe_simulation.Prelude.Int.{ℤ, pos}
use h_axe_simulation.Number.{Double, lt, ◌⊖◌}
use h_axe_simulation.Resource.{ResourceRequest}
use h_axe_simulation.Event.{
  Event, EventType, resource_available, job_finish, new_task_req, new_job, Members, submitted_job,
  request, finished_job,
}
use h_axe_simulation.Worker.State.{Worker, Shared, new_event}
use h_axe_simulation.Placement.{RequestQueue, Placed, PlacementName, task_placement}

-- `Record`
pub record JobRecord (W : Type 0) : Type 0 where
  pub job_id : ℤ
  pub submission_time : W
  pub finish_time : W
  pub use_time : W

-- The scheduler's members, with the static `worker_id` of `FIFO` and the name in `AlgorithmBook`.
pub record Scheduler (W : Type 0) : Type 0 where
  pub req_queue : RequestQueue W
  pub records : List (JobRecord W)
  pub cursor : ℤ
  pub algorithm : PlacementName

-- The result of a handler: the scheduler, the workers and what they share, and the events.
abbrev pub Handled : Type 0 → Type 0
Handled W = Scheduler W × List (Worker W) × Shared W × List (Event W)

module _ {W : Type 0} ⦃d : Double W⦄ where
  -- `multimap::insert`: after the entries whose key is not above.
  pub insert_request : W × ResourceRequest W → RequestQueue W → RequestQueue W
  insert_request (t, req) [] = (t, req) ∷ []
  insert_request (t, req) ((u, q) ∷ m) =
      if lt t u then (t, req) ∷ (u, q) ∷ m else (u, q) ∷ insert_request (t, req) m

  -- `HandleNewJobEvent`
  pub handle_new_job : Event W → Scheduler W → List (Worker W) → Shared W → Outcome (Handled W)
  unfolding new_event
  handle_new_job event sch workers s = elim event.members [
    | submitted_job job ↦
        let (admission, s') =
          new_event EventType.job_admission event.time (pos 0) job.job_id
            (Members.admitted_job job.job_id) s in
        ok (sch, workers, s', admission ∷ [])
    | _ ↦ fail undefined
  ]

  -- The loop that makes an event of each decision.
  pub decision_events : W → List (ℕ × ResourceRequest W) → Shared W → List (Event W) × Shared W
  unfolding new_event
  decision_events time [] s = ([], s)
  decision_events time ((worker_id, req) ∷ ds) s =
      let (event, s') =
        new_event EventType.placement_decision time (pos 0) req.job_id
          (Members.decision (pos worker_id) req.subgraph_id) s in
      let (events, s'') = decision_events time ds s' in (event ∷ events, s'')

  -- `AssignReqToWorker`, and the events of its decisions.
  pub assign_requests : W → Scheduler W → List (Worker W) → Shared W → Outcome (Handled W)
  unfolding task_placement decision_events
  assign_requests time sch workers s = do
    r ← task_placement sch.algorithm sch.req_queue workers sch.cursor
    let (events, s') = decision_events time r.decisions s
    ok (record sch { req_queue = r.queue; cursor = r.cursor }, r.workers, s', events)

  -- `HandleNewReqEvent`
  pub handle_new_req : Event W → Scheduler W → List (Worker W) → Shared W → Outcome (Handled W)
  unfolding insert_request assign_requests
  handle_new_req event sch workers s = elim event.members [
    | request req ↦
        assign_requests event.time
          (record sch { req_queue = insert_request (event.time, req) sch.req_queue }) workers s
    | _ ↦ fail undefined
  ]

  -- `HandleResourceAvailableEvent`
  pub handle_resource_available :
      Event W → Scheduler W → List (Worker W) → Shared W → Outcome (Handled W)
  unfolding assign_requests
  handle_resource_available event sch workers s = elim sch.req_queue [
    | [] ↦ ok (sch, workers, s, [])
    | _ ∷ _ ↦ assign_requests event.time sch workers s
  ]

  -- `HandleJobFinishEvent`
  pub handle_job_finish : Event W → Scheduler W → List (Worker W) → Shared W → Outcome (Handled W)
  handle_job_finish event sch workers s = elim event.members [
    | finished_job job_id submission_time ↦ ok (
      record sch {
        records =
            sch.records
            ++ record {
              job_id = job_id;
              submission_time = submission_time;
              finish_time = event.time;
              use_time = event.time ⊖ submission_time;
            }
              ∷ [];
      },
      workers,
      s,
      [],
    )
    | _ ↦ fail undefined
  ]

  -- `RegisterHandlers` and `Handle`: an event of another type finds an empty function.
  unfoldable pub scheduler_handle :
      EventType → Event W → Scheduler W → List (Worker W) → Shared W → Outcome (Handled W)
  unfolding handle_new_job handle_new_req handle_resource_available handle_job_finish
  scheduler_handle new_job = handle_new_job
  scheduler_handle new_task_req = handle_new_req
  scheduler_handle resource_available = handle_resource_available
  scheduler_handle job_finish = handle_job_finish
  scheduler_handle _ = λ _ _ _ _. fail no_handler

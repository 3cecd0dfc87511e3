-- ===== src/Scheduler/Effects.antt =====
-- src/scheduler: a relation that holds of the steps of the handlers holds of the handlers.
use h_axe_simulation.Prelude.{
  ℕ, List, [], ◌∷◌, fail, undefined, Ensures, Ensures-bind, List-cases, inl, inr, ◌≡◌, refl,
}
use h_axe_simulation.Prelude.Int.{pos}
use h_axe_simulation.Number.{Double}
use h_axe_simulation.Resource.{ResourceRequest}
use h_axe_simulation.Event.{Event, EventType, Members, submitted_job, request, finished_job}
use h_axe_simulation.Placement.{task_placement}
use h_axe_simulation.Manager.Handlers.{Cluster}
use h_axe_simulation.Scheduler.{
  Scheduler, Handled, insert_request, handle_new_job, decision_events, assign_requests,
  handle_new_req, handle_resource_available, handle_job_finish, scheduler_handle,
}
use h_axe_simulation.Effect.{IsEffect}

module _ {W : Type 0} ⦃d : Double W⦄ {R : Cluster W → Cluster W × List (Event W) → Type 0}
    (effect : IsEffect R) where
  -- What a handler of the scheduler does to what it shares with the managers.
  abbrev pub Schedules : Cluster W → Handled W → Type 0
  Schedules c r = R c (record c { workers = r.1; shared = r.2 }, r.3)

  nothing-scheduled : (c : Cluster W) → R c (c, [])
  nothing-scheduled c = effect.idle c c.users

  decision_events-R :
      (time : W) (ds : List (ℕ × ResourceRequest W)) (c : Cluster W)
      → let (events, s) = decision_events time ds c.shared in R c (record c { shared = s }, events)
  unfolding decision_events
  decision_events-R time [] c = nothing-scheduled c
  decision_events-R time ((i, req) ∷ ds) c =
      effect.append c _ _ (_ ∷ []) _
        (effect.made EventType.placement_decision time (pos 0) req.job_id
          (Members.decision (pos i) req.subgraph_id) c tt)
        (decision_events-R time ds _)

  assign_requests-Schedules :
      (time : W) (sch : Scheduler W) (c : Cluster W)
      → Ensures (Schedules c) (assign_requests time sch c.workers c.shared)
  unfolding assign_requests
  assign_requests-Schedules time sch c =
      Ensures-bind (Schedules c) (task_placement sch.algorithm sch.req_queue c.workers sch.cursor) _
        (λ r e.
          let placed : Cluster W = record c { workers = r.workers } in
          effect.append c placed _ [] _
            (effect.reserving sch.algorithm sch.req_queue sch.cursor c r e)
            (decision_events-R time r.decisions placed))

  module _ (event : Event W) (sch : Scheduler W) (c : Cluster W) where
    new_job-Schedules : Ensures (Schedules c) (handle_new_job event sch c.workers c.shared)
    unfolding handle_new_job
    new_job-Schedules = go event.members refl
      where
        go :
            (members : Members W)
            → event.members ≡ members
            → Ensures (Schedules c) (handle_new_job event sch c.workers c.shared)
        go (submitted_job job) e =
            rw (e, handle_new_job)
              (effect.made EventType.job_admission event.time (pos 0) job.job_id
                (Members.admitted_job job.job_id) c refl)
        go (Members.finished_task _) e = rw (e, handle_new_job) tt
        go Members.nothing e = rw (e, handle_new_job) tt
        go (finished_job _ _) e = rw (e, handle_new_job) tt
        go (Members.admitted_job _) e = rw (e, handle_new_job) tt
        go (Members.decision _ _) e = rw (e, handle_new_job) tt
        go (request _) e = rw (e, handle_new_job) tt

    new_req-Schedules : Ensures (Schedules c) (handle_new_req event sch c.workers c.shared)
    unfolding handle_new_req
    new_req-Schedules =
        elim event.members
          as (λ members. Ensures (Schedules c) (elim members [
            | request req ↦
                assign_requests event.time
                  (record sch { req_queue = insert_request (event.time, req) sch.req_queue })
                  c.workers c.shared
            | _ ↦ fail undefined
          ])) [ request req ↦ assign_requests-Schedules event.time _ c | _ ↦ tt ]

    resource_available-Schedules :
        Ensures (Schedules c) (handle_resource_available event sch c.workers c.shared)
    unfolding handle_resource_available
    resource_available-Schedules = elim (List-cases sch.req_queue) [
      | inl e ↦ rw (e, handle_resource_available) (nothing-scheduled c)
      | inr (q, qs, e) ↦
          rw (e, handle_resource_available) (assign_requests-Schedules event.time _ c)
    ]

    job_finish-Schedules : Ensures (Schedules c) (handle_job_finish event sch c.workers c.shared)
    unfolding handle_job_finish
    job_finish-Schedules = go event.members refl
      where
        go :
            (members : Members W)
            → event.members ≡ members
            → Ensures (Schedules c) (handle_job_finish event sch c.workers c.shared)
        go (finished_job _ _) e = rw (e, handle_job_finish) (nothing-scheduled c)
        go (Members.finished_task _) e = rw (e, handle_job_finish) tt
        go Members.nothing e = rw (e, handle_job_finish) tt
        go (submitted_job _) e = rw (e, handle_job_finish) tt
        go (Members.admitted_job _) e = rw (e, handle_job_finish) tt
        go (Members.decision _ _) e = rw (e, handle_job_finish) tt
        go (request _) e = rw (e, handle_job_finish) tt

    pub scheduler_handle-Schedules :
        (kind : EventType)
        → Ensures (Schedules c) (scheduler_handle kind event sch c.workers c.shared)
    unfolding scheduler_handle
    scheduler_handle-Schedules EventType.new_job = new_job-Schedules
    scheduler_handle-Schedules EventType.new_task_req = new_req-Schedules
    scheduler_handle-Schedules EventType.resource_available = resource_available-Schedules
    scheduler_handle-Schedules EventType.job_finish = job_finish-Schedules
    scheduler_handle-Schedules EventType.task_finish = tt
    scheduler_handle-Schedules EventType.job_admission = tt
    scheduler_handle-Schedules EventType.placement_decision = tt

-- ===== src/Scheduler/Returns.antt =====
-- src/scheduler: that the handlers return.
use h_axe_simulation.Prelude.{List, ◌∷◌, ◌≡◌, refl, inl, inr, List-cases}
use h_axe_simulation.Number.{Double}
use h_axe_simulation.Event.{Event, EventType, Members}
use h_axe_simulation.Event.Classes.{Carries}
use h_axe_simulation.Worker.State.{Worker, Shared}
use h_axe_simulation.Placement.{task_placement}
use h_axe_simulation.Placement.Returns.{Returns, Returns-result, IsInBook, task_placement-Returns}
use h_axe_simulation.Scheduler.{
  Scheduler, insert_request, handle_new_job, assign_requests, handle_new_req,
  handle_resource_available, handle_job_finish, scheduler_handle,
}
use h_axe_simulation.Scheduler.Requests.{insert-cons}

-- The types of events that the scheduler has a handler for.
abbrev pub IsForScheduler : EventType → Type 0
IsForScheduler EventType.new_job = Unit
IsForScheduler EventType.new_task_req = Unit
IsForScheduler EventType.resource_available = Unit
IsForScheduler EventType.job_finish = Unit
IsForScheduler EventType.task_finish = ⊥
IsForScheduler EventType.job_admission = ⊥
IsForScheduler EventType.placement_decision = ⊥

module _ {W : Type 0} ⦃d : Double W⦄ (w : Worker W) (ws : List (Worker W)) (s : Shared W) where
  assign_requests-Returns :
      (time : W) (sch : Scheduler W) (entry : _) (rest : _)
      → sch.req_queue ≡ entry ∷ rest
      → IsInBook W sch.algorithm
      → Returns (assign_requests time sch (w ∷ ws) s)
  unfolding assign_requests
  assign_requests-Returns time sch entry rest e h =
      let (r, ran) =
        Returns-result (task_placement sch.algorithm (entry ∷ rest) (w ∷ ws) sch.cursor)
          (task_placement-Returns sch.algorithm entry rest w ws sch.cursor h) in
      rw (assign_requests, e, ran) tt

  module _ (event : Event W) (sch : Scheduler W) (book : IsInBook W sch.algorithm) where
    pub handler-Returns :
        (kind : EventType) (members : Members W)
        → event.members ≡ members
        → Carries kind event.principal members
        → IsForScheduler kind
        → Returns (scheduler_handle kind event sch (w ∷ ws) s)
    unfolding scheduler_handle handle_new_job handle_new_req handle_resource_available
        handle_job_finish
    handler-Returns EventType.new_job (Members.submitted_job job) e h k = rw (e, handle_new_job) tt
    handler-Returns EventType.new_task_req (Members.request req) e h k =
        let (entry, rest, queue) = insert-cons event.time req sch.req_queue in
        rw (e, handle_new_req)
          (assign_requests-Returns event.time
            (record sch { req_queue = insert_request (event.time, req) sch.req_queue }) entry rest
            queue book)
    handler-Returns EventType.job_finish (Members.finished_job i t) e h k =
        rw (e, handle_job_finish) tt
    handler-Returns EventType.resource_available Members.nothing e h k =
        elim (List-cases sch.req_queue) [
          | inl q ↦ rw (q, handle_resource_available) tt
          | inr (entry, rest, q) ↦
              simp (q, handle_resource_available)
                (assign_requests-Returns event.time (record sch { req_queue = entry ∷ rest }) entry
                  rest refl book)
        ]
    handler-Returns EventType.new_job _ e h k = absurd h
    handler-Returns EventType.new_task_req _ e h k = absurd h
    handler-Returns EventType.job_finish _ e h k = absurd h
    handler-Returns EventType.resource_available _ e h k = absurd h
    handler-Returns EventType.task_finish _ e h k = absurd k
    handler-Returns EventType.job_admission _ e h k = absurd k
    handler-Returns EventType.placement_decision _ e h k = absurd k

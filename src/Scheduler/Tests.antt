-- ===== src/Scheduler/Tests.antt =====
-- A queue of requests at whole times.
use h_axe_simulation.Prelude.{◌≡◌, refl, false, [], ◌∷◌, ◌++◌, All, arith}
use h_axe_simulation.Prelude.Int.{ℤ, pos}
use h_axe_simulation.Number.{lt}
use h_axe_simulation.Number.Whole.{whole_double}
use h_axe_simulation.Resource.{ResourceRequest}
use h_axe_simulation.Event.{Event, EventType, Members, scheduler_principal}
use h_axe_simulation.Placement.{RequestQueue, PlacementName, next_worker}
use h_axe_simulation.Placement.Tetris.{IsOrder}
use h_axe_simulation.Sample.{no_load, idle_worker, quiet}
use h_axe_simulation.Scheduler.{Scheduler, insert_request, handle_new_req}
use h_axe_simulation.Scheduler.Requests.{Assigns, handle_new_req_lem}
use h_axe_simulation.Scheduler.Queue.{IsSorted, StartsAfter, insert_request_lem}

abbrev request_by : ℤ → ResourceRequest ℤ
request_by i = record { job_id = i; subgraph_id = pos 0; data_locality = []; resource = no_load }

abbrev waiting : RequestQueue ℤ
waiting =
    (pos 1, request_by (pos 0)) ∷ (pos 4, request_by (pos 1)) ∷ (pos 9, request_by (pos 2)) ∷ []

order : IsOrder ℤ
order = record { irreflexive = λ x. ground arith; transitive = λ x y z h k. ground arith }

insert_request_lem_example :
    IsSorted (insert_request (pos 4, request_by (pos 3)) waiting)
    × ((before : RequestQueue ℤ) × (after : RequestQueue ℤ) × (waiting ≡ before ++ after)
        × (insert_request (pos 4, request_by (pos 3)) waiting
            ≡ before ++ (pos 4, request_by (pos 3)) ∷ after)
        × All (λ (e : ℤ × ResourceRequest ℤ). lt (pos 4) (e.0) ≡ false) before
        × StartsAfter (pos 4) after)
insert_request_lem_example =
    insert_request_lem order (pos 4) (request_by (pos 3)) waiting
      ((refl, (refl, tt)), ((refl, tt), (tt, tt)))

abbrev scheduler : Scheduler ℤ
scheduler = record {
  req_queue = waiting;
  records = [];
  cursor = pos 0;
  algorithm = PlacementName.fifo_name;
}

abbrev arrival : Event ℤ
arrival = record {
  event_type = EventType.new_task_req;
  time = pos 4;
  priority = pos 0;
  principal = scheduler_principal;
  event_id = 8;
  members = Members.request (request_by (pos 3));
}

handle_new_req_lem_example :
    Assigns 1
      (insert_request (pos 4, request_by (pos 3)) waiting)
      (idle_worker ∷ idle_worker ∷ [])
      (handle_new_req arrival scheduler (idle_worker ∷ idle_worker ∷ []) quiet)
unfolding next_worker
handle_new_req_lem_example =
    handle_new_req_lem arrival (request_by (pos 3)) scheduler idle_worker (idle_worker ∷ []) quiet
      refl refl

-- ===== src/Manager/Tests.antt =====
-- The sample job's manager.
use h_axe_simulation.Prelude.{List, ◌≡◌, refl, [], ◌∷◌, ◌++◌, Outcome, ok, fail, map, some, false}
use h_axe_simulation.Prelude.Int.{ℤ, pos, ◌+ℤ◌}
use h_axe_simulation.Number.Whole.{whole_double}
use h_axe_simulation.Job.{key_eq}
use h_axe_simulation.User.{new_user}
use h_axe_simulation.Resource.{set_index}
use h_axe_simulation.Worker.State.{new_event, take_memory}
use h_axe_simulation.Worker.Channel.{place_channel_task, channel_of, set_channel}
use h_axe_simulation.Worker.Machine.{place_new_task}
use h_axe_simulation.Manager.State.{
  Manager, build_dependencies, empty_manager, new_manager, child_requests,
}
use h_axe_simulation.Manager.Handlers.{
  Cluster, Managed, ready_child, visit_child, visit_children, request_events, handle_admission,
  handle_placement,
}
use h_axe_simulation.Event.{Event, EventType, Members}
use h_axe_simulation.Manager.Admission.{asks_for, starts, handle_admission_lem}
use h_axe_simulation.Manager.Requests.{requests, noted}
use h_axe_simulation.Manager.Life.{Life, requests_once}
use h_axe_simulation.Manager.Counters.{HasCounted, visit_children_lem}
use h_axe_simulation.Manager.Dependencies.{
  parents, home, entries, occurrences, members_of, build_dependencies_lem,
}
use h_axe_simulation.Sample.{two_step_job, task_id, idle_worker, quiet, read_task}

build_dependencies_lem_example :
    let m = build_dependencies (empty_manager two_step_job) in
    (m.dep_counter (task_id (pos 2) (pos 0))
      ≡ parents (task_id (pos 2) (pos 0)) two_step_job.subgraphs)
    × (m.subgraph_of (task_id (pos 2) (pos 0))
        ≡ home 0 two_step_job.subgraphs 0 (task_id (pos 2) (pos 0)))
    × (m.subgraph_dep_counter 1
        ≡ entries (home 0 two_step_job.subgraphs 0) 1 0 two_step_job.subgraphs)
build_dependencies_lem_example = build_dependencies_lem two_step_job (task_id (pos 2) (pos 0)) 1

abbrev manager : Manager ℤ
manager = build_dependencies (empty_manager two_step_job)

abbrev cluster : Cluster ℤ
cluster = record { workers = idle_worker ∷ []; users = new_user ∷ []; shared = quiet }

abbrev visited : Managed ℤ
visited = result (visit_children (pos 13) (read_task.children) manager cluster)
  where
    result : Outcome (Managed ℤ) → Managed ℤ
    result (ok r) = r
    result (fail e) = (manager, cluster, [])

visit_children_lem_example :
    HasCounted
      (task_id (pos 2) (pos 0))
      1
      (occurrences (task_id (pos 2) (pos 0)) read_task.children)
      (members_of manager.subgraph_of 1 read_task.children)
      manager
      (visited.0)
unfolding build_dependencies visit_children visit_child ready_child child_requests request_events
    new_event key_eq
visit_children_lem_example =
    visit_children_lem (task_id (pos 2) (pos 0)) 1 (pos 13) (read_task.children) manager (visited.0)
      cluster (visited.1) refl

abbrev admission : Event ℤ
admission = record {
  event_type = EventType.job_admission;
  time = pos 10;
  priority = pos 0;
  principal = pos 0;
  event_id = 1;
  members = Members.admitted_job (pos 0);
}

handle_admission_lem_example :
    (m' : Manager ℤ) × (c' : Cluster ℤ) × (events : List (Event ℤ)) × (handle_admission admission
        (new_manager false two_step_job)
        cluster
      ≡ ok (m', c', events))
    × (map asks_for events
        ≡ map (λ n. some (pos n)) (starts two_step_job.subgraphs 0 two_step_job.subgraphs))
handle_admission_lem_example = handle_admission_lem two_step_job admission cluster

abbrev unchanged : Managed ℤ
unchanged = (manager, cluster, [])

abbrev or_unchanged : Outcome (Managed ℤ) → Managed ℤ
or_unchanged (ok r) = r
or_unchanged (fail e) = unchanged

-- The first subgraph goes to the only worker.
abbrev decision : Event ℤ
decision = record admission {
  event_type = EventType.placement_decision;
  members = Members.decision (pos 0) (pos 0);
}

abbrev after_admission : Managed ℤ
after_admission = or_unchanged (handle_admission admission (new_manager false two_step_job) cluster)

abbrev after_decision : Managed ℤ
after_decision = or_unchanged (handle_placement decision after_admission.0 after_admission.1)

requests_once_example :
    requests 0 (after_admission.2 ++ after_decision.2) ≡ noted 0 after_decision.0
unfolding handle_admission handle_placement new_manager place_new_task place_channel_task channel_of
    ◌+ℤ◌ take_memory set_channel set_index
requests_once_example =
    requests_once false two_step_job after_decision.0 (after_admission.2 ++ after_decision.2)
      (Life.decided decision after_admission.1 after_decision.1 after_admission.0 after_decision.0
        after_admission.2 after_decision.2
        (Life.admitted admission cluster after_admission.1 after_admission.0 after_admission.2 refl)
        refl)
      0

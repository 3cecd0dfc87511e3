-- ===== src/Simulator/Tests.antt =====
-- A simulation with an event that is not valid any more.
use h_axe_simulation.Prelude.{◌≡◌, refl, false, List, [], ◌∷◌, ok}
use h_axe_simulation.Prelude.Int.{ℤ, pos, negsuc, ◌+ℤ◌, ◌-ℤ◌}
use h_axe_simulation.Number.Whole.{whole_double}
use h_axe_simulation.Event.{Event, EventType, Members, scheduler_principal, best, top_pop}
use h_axe_simulation.Placement.{PlacementName}
use h_axe_simulation.Sample.{no_load, quiet, idle_worker, two_step_job}
use h_axe_simulation.Simulator.Start.{start, new_job_events}
use h_axe_simulation.Prelude.{Outcome, fail, none, All}
use h_axe_simulation.Worker.Fit.{IsFit}
use h_axe_simulation.Worker.Tidy.{IsTidy}
use h_axe_simulation.Event.Classes.{HasMembers}
use h_axe_simulation.Simulator.Events.{run-HasMembers}
use h_axe_simulation.Simulator.Returns.{run-serves}
use h_axe_simulation.Simulator.Workers.{run-IsTidy, run-IsFit}
use h_axe_simulation.Simulator.{Simulator, mem_id, erase_id, serve_event, serve}
use h_axe_simulation.Simulator.Reach.{Step, Reaches, IsDistinct, serve-Reaches, run-IsDistinct}

abbrev blank : Simulator ℤ
blank = record {
  cluster_capacity = no_load;
  scheduler = record {
    req_queue = [];
    records = [];
    cursor = negsuc 0;
    algorithm = PlacementName.fifo_name;
  };
  managers = [];
  queue = [];
  cluster = record { workers = []; users = []; shared = quiet };
}

-- An event with the number of the one that is invalid
abbrev skipped : Event ℤ
skipped = record {
  event_type = EventType.resource_available;
  time = pos 3;
  priority = pos 0;
  principal = scheduler_principal;
  event_id = 4;
  members = Members.nothing;
}

abbrev waiting : Simulator ℤ
waiting = record blank {
  cluster = record { workers = []; users = []; shared = record quiet { invalid = 4 ∷ 9 ∷ [] } };
}

-- The same with the event on the queue, and after it is served
abbrev queued : Simulator ℤ
queued = record waiting { queue = skipped ∷ [] }

abbrev served : Simulator ℤ
served = record blank {
  cluster = record { workers = []; users = []; shared = record quiet { invalid = 9 ∷ [] } };
}

abbrev or_blank : Outcome (Simulator ℤ) → Simulator ℤ
or_blank (ok sim) = sim
or_blank (fail why) = blank

-- Two jobs on one worker: at the start, and when the first is told to the scheduler.
abbrev started : Simulator ℤ
started = or_blank (
    start false PlacementName.fifo_name (idle_worker ∷ []) (two_step_job ∷ two_step_job ∷ [])
      (λ _ _. pos 0))

abbrev first_of : List (Event ℤ) → Event ℤ × List (Event ℤ)
first_of [] = (skipped, [])
first_of (e ∷ es) = best e es

abbrev told : Simulator ℤ
told =
    or_blank (
      serve_event (first_of started.queue).0
        (record started { queue = (first_of started.queue).1 }))

told-Reaches : Reaches started told
unfolding start serve_event best top_pop new_job_events ◌+ℤ◌ ◌-ℤ◌
told-Reaches =
    Reaches.later Reaches.starts
      (Step.serves (first_of started.queue).0 (first_of started.queue).1 told refl refl)

run-IsDistinct_example : IsDistinct told
unfolding start ◌+ℤ◌
run-IsDistinct_example =
    run-IsDistinct false PlacementName.fifo_name (idle_worker ∷ [])
      (two_step_job ∷ two_step_job ∷ []) (λ _ _. pos 0) started told refl told-Reaches

serve-Reaches_example : Reaches queued served × (top_pop served.queue ≡ none)
unfolding serve serve_event top_pop mem_id erase_id
serve-Reaches_example = serve-Reaches 2 queued served refl

run-IsTidy_example : All IsTidy told.cluster.workers
unfolding start ◌+ℤ◌
run-IsTidy_example =
    run-IsTidy false PlacementName.fifo_name (idle_worker ∷ []) (two_step_job ∷ two_step_job ∷ [])
      (λ _ _. pos 0) started told ((tt, (refl, (refl, (refl, (refl, tt))))), tt) refl told-Reaches

run-IsFit_example : All IsFit told.cluster.workers
unfolding start ◌+ℤ◌
run-IsFit_example =
    run-IsFit false PlacementName.fifo_name (idle_worker ∷ []) (two_step_job ∷ two_step_job ∷ [])
      (λ _ _. pos 0) started told (refl, tt) refl told-Reaches

run-HasMembers_example : All HasMembers told.queue
unfolding start ◌+ℤ◌
run-HasMembers_example =
    run-HasMembers false PlacementName.fifo_name (idle_worker ∷ [])
      (two_step_job ∷ two_step_job ∷ []) (λ _ _. pos 0) started told refl told-Reaches

-- Then the job is admitted, and its first subgraph is asked for.
abbrev admitted : Simulator ℤ
admitted =
    or_blank (serve_event (first_of told.queue).0 (record told { queue = (first_of told.queue).1 }))

admitted-Reaches : Reaches started admitted
unfolding start serve_event best top_pop new_job_events ◌+ℤ◌ ◌-ℤ◌
admitted-Reaches =
    Reaches.later told-Reaches
      (Step.serves (first_of told.queue).0 (first_of told.queue).1 admitted refl refl)

run-serves_example : (t : Simulator ℤ) × Step admitted t
unfolding start serve_event best top_pop new_job_events ◌+ℤ◌ ◌-ℤ◌
run-serves_example =
    run-serves false PlacementName.fifo_name idle_worker [] (two_step_job ∷ two_step_job ∷ [])
      (λ _ _. pos 0) started admitted (first_of admitted.queue).0 (first_of admitted.queue).1 tt
      refl admitted-Reaches refl tt

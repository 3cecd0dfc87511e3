-- ===== src/Main/Tests.antt =====
-- The whole program on a small input.
use Prim.Native.String.{String}
use h_axe_simulation.Prelude.{
  ◌≡◌, refl, List, [], ◌∷◌, All, map, none, Outcome, ok, fail, false, check_failed,
}
use h_axe_simulation.Prelude.Int.{ℤ, pos, ◌+ℤ◌, ◌-ℤ◌}
use h_axe_simulation.Number.Whole.{whole_double}
use h_axe_simulation.Event.{top_pop}
use h_axe_simulation.Job.{key_eq}
use h_axe_simulation.Worker.Tidy.{IsTidy}
use h_axe_simulation.Worker.Machine.{worker_report}
use h_axe_simulation.Placement.{fifo_name}
use h_axe_simulation.Simulator.{Simulator}
use h_axe_simulation.Simulator.Report.{Reports}
use h_axe_simulation.Sample.{no_load, quiet, idle_worker}
use h_axe_simulation.Loading.Sample.{
  values, files, Value, object, field, one, close, sample_worker, sample_job,
}
use h_axe_simulation.Job.{set_resources_req}
use h_axe_simulation.Placement.{next_worker}
use h_axe_simulation.Worker.Machine.{reserve}
use h_axe_simulation.Resource.{fit_in}
use h_axe_simulation.Resource.{add}
use h_axe_simulation.Worker.Machine.{place_new_task}
use h_axe_simulation.Worker.Cpu.{place_cpu_task}
use h_axe_simulation.Worker.State.{take_memory}
use h_axe_simulation.Worker.State.{finish_event}
use h_axe_simulation.Worker.Machine.{task_finish}
use h_axe_simulation.Worker.Cpu.{finish_cpu_task}
use h_axe_simulation.Worker.State.{release_memory}
use h_axe_simulation.Main.{Input, Result, simulated, read_input, main}
use h_axe_simulation.Main.Yarn.{main_yarn_fails}
use h_axe_simulation.Worker.State.{Worker}
use h_axe_simulation.Main.Run.{main_simulated}

abbrev arguments : List String
arguments = "simulation" ∷ "WORKER" ∷ "workers.json" ∷ "jobs.json" ∷ "alg.json" ∷ []

abbrev ran : Outcome (Result ℤ)
ran = main values 20 files (λ _ _. pos 0) arguments

abbrev nothing_simulated : Simulator ℤ
nothing_simulated = record {
  cluster_capacity = no_load;
  scheduler = record { req_queue = []; records = []; cursor = pos 0; algorithm = fifo_name };
  managers = [];
  queue = [];
  cluster = record { workers = []; users = []; shared = quiet };
}

abbrev state_of : Outcome (Result ℤ) → Simulator ℤ
state_of (ok (simulated s r)) = s
state_of _ = nothing_simulated

abbrev reports_of : Outcome (Result ℤ) → Reports ℤ
reports_of (ok (simulated s r)) = r
reports_of _ = record { of_workers = []; of_jobs = []; of_users = [] }

main_simulated_example :
    (top_pop (state_of ran).queue ≡ none)
    × All IsTidy (state_of ran).cluster.workers
    × ((reports_of ran).of_workers ≡ map worker_report (state_of ran).cluster.workers)
unfolding main ◌+ℤ◌ ◌-ℤ◌ key_eq set_resources_req next_worker reserve fit_in add place_new_task
    place_cpu_task take_memory finish_event task_finish finish_cpu_task release_memory
main_simulated_example =
    main_simulated values 20 files (λ _ _. pos 0) arguments (state_of ran) (reports_of ran) refl

-- The job of the input ends at second 3, two seconds after it was submitted.
job_times :
    (reports_of ran).of_jobs
    ≡ record { job_id = pos 0; submission_time = pos 1; finish_time = pos 3; use_time = pos 2 } ∷ []
unfolding main ◌+ℤ◌ ◌-ℤ◌ key_eq set_resources_req next_worker reserve fit_in add place_new_task
    place_cpu_task take_memory finish_event task_finish finish_cpu_task release_memory
job_times = refl

-- The same files with the executor YARN
abbrev with_yarn : List String
with_yarn = "simulation" ∷ "YARN" ∷ "workers.json" ∷ "jobs.json" ∷ "alg.json" ∷ []

abbrev or_none : Outcome (Input ℤ) → Input ℤ
or_none (ok input) = input
or_none (fail why) = record { workers = []; jobs = [] }

abbrev first_worker : List (Worker ℤ) → Worker ℤ
first_worker [] = idle_worker
first_worker (w ∷ ws) = w

abbrev workers_value : Value
workers_value = object (field "worker" (one sample_worker) close)

abbrev jobs_value : Value
jobs_value = object (field "job" (one sample_job) close)

abbrev node_managers : Input ℤ
node_managers =
    or_none (read_input values 20 false workers_value (record { workers = []; jobs = [] }))

abbrev whole_input : Input ℤ
whole_input = or_none (read_input values 20 false jobs_value node_managers)

main_yarn_fails_example : main values 20 files (λ _ _. pos 0) with_yarn ≡ fail check_failed
unfolding main
main_yarn_fails_example =
    main_yarn_fails values 20 files (λ _ _. pos 0) with_yarn workers_value jobs_value node_managers
      whole_input (first_worker whole_input.workers) [] refl refl refl refl refl refl

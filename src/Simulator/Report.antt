-- ===== src/Simulator/Report.antt =====
-- src/simulator.h and src/scheduler/scheduler_impl.h: the rows of the reports.
use h_axe_simulation.Prelude.{List, [], ◌∷◌, map, Outcome, ok, ◌>>=◌}
use h_axe_simulation.Prelude.Int.{ℤ}
use h_axe_simulation.Number.{Double}
use h_axe_simulation.User.{User}
use h_axe_simulation.User.Report.{report_share}
use h_axe_simulation.Worker.Machine.{worker_report}
use h_axe_simulation.Scheduler.{Scheduler, JobRecord}
use h_axe_simulation.Simulator.{Simulator}

-- What the files of a report hold, one for each worker, that of the scheduler, and one for each user.
pub record Reports (W : Type 0) : Type 0 where
  pub of_workers : List (List (List W))
  pub of_jobs : List (JobRecord W)
  pub of_users : List (List (ℤ × List W))

module _ {W : Type 0} ⦃d : Double W⦄ where
  -- `Report` of the scheduler: a row for each job that has ended, in their order.
  job_rows : Scheduler W → List (JobRecord W)
  job_rows sch = sch.records

  pub share_reports : List (User W) → Outcome (List (List (ℤ × List W)))
  unfolding report_share
  share_reports [] = ok []
  share_reports (u ∷ us) = do rows ← report_share u; more ← share_reports us; ok (rows ∷ more)

  -- `Report`
  unfoldable pub report : Simulator W → Outcome (Reports W)
  unfolding worker_report job_rows share_reports
  report sim = do
    users ← share_reports sim.cluster.users
    ok (record {
      of_workers = map worker_report sim.cluster.workers;
      of_jobs = job_rows sim.scheduler;
      of_users = users;
    })

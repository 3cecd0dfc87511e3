-- ===== src/Loading/Tests.antt =====
-- A small input, read and run.
use h_axe_simulation.Prelude.{◌≡◌, refl, Outcome, ok, fail, [], ◌++◌, arith}
use h_axe_simulation.Prelude.Int.{ℤ, pos, ◌+ℤ◌, ◌-ℤ◌}
use h_axe_simulation.Number.Whole.{whole_double}
use h_axe_simulation.Job.{Job, key_eq}
use h_axe_simulation.Loading.Text.RoundTrip.{decimal, worker_id_of-decimal}
use h_axe_simulation.Loading.Units.{codes, worker_id_of}
use h_axe_simulation.Loading.Sample.{values, sample_job}
use h_axe_simulation.Loading.Jobs.{read_job}
use h_axe_simulation.Loading.Jobs.Uniform.{IsUniform, read_job-IsUniform}

abbrev job_of : Outcome (Job ℤ) → Job ℤ
job_of (ok job) = job
job_of (fail why) = record {
  subgraphs = [];
  job_id = pos 0;
  user_id = pos 0;
  submission_time = pos 0;
}

read_job-IsUniform_example : IsUniform (job_of (read_job values 1 sample_job))
unfolding read_job ◌+ℤ◌ ◌-ℤ◌ key_eq
read_job-IsUniform_example =
    read_job-IsUniform values 1 sample_job (job_of (read_job values 1 sample_job)) refl

worker_id_of-decimal_example : worker_id_of (codes "worker" ++ decimal 12) ≡ ok (pos 12)
worker_id_of-decimal_example = worker_id_of-decimal (codes "worker") 12 refl (omega arith)

-- ===== src/Loading/Jobs/Uniform.antt =====
-- `from_json` of src/job/job.h and subgraph.h: what a job that is read is like.
use h_axe_simulation.Prelude.{
  ℕ, ◌≡◌, refl, true, List, [], ◌∷◌, All, map, Outcome, ok, or_fail, Ensures, Ensures-bind,
  Ensures-ok, inl, inr, type_error, Option-cases,
}
use h_axe_simulation.Prelude.Int.{ℤ}
use h_axe_simulation.Number.{Double, whole}
use h_axe_simulation.Job.{
  ShardTask, SubGraph, Job, set_job_id, finish_job, unplaced, set_resources_req,
}
use h_axe_simulation.Flow.{load_subgraph, get_memory_cap}
use h_axe_simulation.Loading.{
  Json, at_key, get_int, get_double, read_all, read_items, read_optional,
}
use Prim.Native.String.{String}
use h_axe_simulation.Loading.Jobs.{read_task, read_subgraph, read_job}

module _ {V A : Type 0} (P : A → Type 0) (read : V → Outcome A)
    (h : (j : V) → Ensures P (read j)) where
  read_all-All : (js : List V) → Ensures (All P) (read_all read js)
  unfolding read_all
  read_all-All [] = tt
  read_all-All (j ∷ js) = Ensures-bind (All P) (read j) _ (λ x e.
      Ensures-bind (All P) (read_all read js) _
        (λ xs g. (Ensures-ok P _ (h j) e, Ensures-ok (All P) _ (read_all-All js) g)))

  module _ {W : Type 0} (json : Json V W) where
    pub read_items-All : (j : V) → Ensures (All P) (read_items json read j)
    unfolding read_items
    read_items-All j =
        Ensures-bind (All P) (or_fail (json.items_of j) type_error) _
          (λ items e. read_all-All items)

    read_optional-All : (j : V) (key : String) → Ensures (All P) (read_optional json read j key)
    unfolding read_optional
    read_optional-All j key = elim (Option-cases (json.find j key)) [
      | inl e ↦ rw (e, read_optional) tt
      | inr (v, e) ↦ rw (e, read_optional) (read_items-All v)
    ]

module _ {W : Type 0} ⦃d : Double W⦄ where
  -- A subgraph that no worker has, with the memory of its request the capacity that it gives back.
  pub record IsFresh (sg : SubGraph W) : Type 0 where
    pub nowhere : sg.worker_id ≡ unplaced
    pub for_workers : sg.is_worker ≡ true
    pub balanced : sg.resource_pack.memory_of ≡ whole sg.memory_cap

  load_subgraph-IsFresh :
      (fuel : ℕ) (tasks : List (ShardTask W)) → Ensures IsFresh (load_subgraph fuel tasks)
  unfolding load_subgraph set_resources_req
  load_subgraph-IsFresh fuel tasks =
      Ensures-bind IsFresh (get_memory_cap fuel tasks) _
        (λ cap e. record { nowhere = refl; for_workers = refl; balanced = refl })

  -- and all of which is of one job
  pub record IsOf (job_id : ℤ) (sg : SubGraph W) : Type 0 where
    pub fresh : IsFresh sg
    pub same_job : sg.job_id ≡ job_id
    pub same_tasks : All (λ (t : ShardTask W). t.job_id ≡ job_id) sg.shard_tasks

  set_tasks :
      (k : ℤ) (ts : List (ShardTask W))
      → All
          (λ (t : ShardTask W). t.job_id ≡ k)
          (map (λ (t : ShardTask W). record t { job_id = k }) ts)
  set_tasks k [] = tt
  set_tasks k (t ∷ ts) = (refl, set_tasks k ts)

  set_job_id-IsOf :
      (k : ℤ) (sgs : List (SubGraph W)) → All IsFresh sgs → All (IsOf k) (map (set_job_id k) sgs)
  unfolding set_job_id
  set_job_id-IsOf k [] h = tt
  set_job_id-IsOf k (sg ∷ sgs) (h, hs) = (
    record {
      fresh = record { nowhere = h.nowhere; for_workers = h.for_workers; balanced = h.balanced };
      same_job = refl;
      same_tasks = set_tasks k sg.shard_tasks;
    },
    set_job_id-IsOf k sgs hs,
  )

  abbrev pub IsUniform : Job W → Type 0
  IsUniform job = All (IsOf job.job_id) job.subgraphs

  read_job-Uniform :
      {V : Type 0} (json : Json V W) (fuel : ℕ) (j : V) → Ensures IsUniform (read_job json fuel j)
  unfolding read_job read_subgraph finish_job
  read_job-Uniform json fuel j = Ensures-bind IsUniform (get_int json j "jobid") _ (λ job_id e1.
      Ensures-bind IsUniform (get_int json j "userid") _ (λ user_id e2.
        Ensures-bind IsUniform (get_double json j "submissiontime") _ (λ time e3.
          Ensures-bind IsUniform (read_optional json (read_subgraph json fuel) j "subgraph") _
            (λ sgs e4. set_job_id-IsOf job_id sgs (
              Ensures-ok (All IsFresh) _
                (read_optional-All IsFresh (read_subgraph json fuel)
                  (λ k. Ensures-bind IsFresh (at_key json k "shardtask") _ (λ v e5.
                    Ensures-bind IsFresh (read_items json (read_task json) v) _
                      (λ tasks e6. load_subgraph-IsFresh fuel tasks)))
                  json j "subgraph")
                e4)))))

-- In a job that is read, every subgraph has the number of the job and so has every task of it, no
-- subgraph is placed, each is one for workers, and the memory that it asks for is the capacity that it
-- gives back when it ends.
pub read_job-IsUniform :
    {V W : Type 0} ⦃d : Double W⦄ (json : Json V W) (fuel : ℕ) (j : V) (job : Job W)
    → read_job json fuel j ≡ ok job
    → IsUniform job
read_job-IsUniform json fuel j job e = Ensures-ok IsUniform _ (read_job-Uniform json fuel j) e

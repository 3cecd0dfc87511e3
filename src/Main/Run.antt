-- ===== src/Main/Run.antt =====
-- src/main.cc: what a run of the program that ends comes to.
use Prim.Native.String.{String}
use text.Mathlib.Text.{◌==◌}
use h_axe_simulation.Prelude.{
  ℕ, ◌≡◌, refl, ap, ◌∙◌, Bool, not, inl, inr, List, [], All, map, Option, none, ok, ◌>>=◌, or_fail,
  undefined, Option-cases, Ensures, Ensures-bind, Ensures-ok, Ensures-map, Ensures-if, >>=-eq-ok,
  get_elem?,
}
use h_axe_simulation.Number.{Double, zero_double}
use h_axe_simulation.Job.{Job}
use h_axe_simulation.Event.{top_pop}
use h_axe_simulation.Worker.State.{Worker}
use h_axe_simulation.Worker.Machine.{new_worker, load_worker, note_usage, worker_report}
use h_axe_simulation.Worker.Records.{note_usage-IsRecorded}
use h_axe_simulation.Worker.Tidy.{IsTidy}
use h_axe_simulation.Placement.{PlacementName}
use h_axe_simulation.Simulator.{Simulator, serve}
use h_axe_simulation.Simulator.Reach.{serve-Reaches}
use h_axe_simulation.Simulator.Workers.{run-IsTidy}
use h_axe_simulation.Simulator.Start.{start, init_workers, init_simulator}
use h_axe_simulation.Simulator.Report.{Reports, report, share_reports}
use h_axe_simulation.Loading.{Json, read_items}
use h_axe_simulation.Loading.Jobs.{read_job, read_pack, read_worker}
use h_axe_simulation.Loading.Jobs.Uniform.{read_items-All}
use h_axe_simulation.Loading.Units.{read_player}
use h_axe_simulation.Player.Init as Init
use h_axe_simulation.Main.{
  Input, Result, played, simulated, read_input, construct, set_algorithm, read_argument, simulate,
  play, main,
}

module _ {V W : Type 0} ⦃d : Double W⦄ (json : Json V W) where
  read_worker-IsTidy : (is_worker : Bool) (j : V) → Ensures IsTidy (read_worker json is_worker j)
  unfolding read_worker load_worker new_worker
  read_worker-IsTidy is_worker j = Ensures-bind IsTidy (read_pack json j) _ (λ capacity e.
      let w = new_worker is_worker capacity in
      Ensures-map (note_usage zero_double w) (note_usage-IsRecorded zero_double w tt)
        (λ v r. (r.rising, r.no_debt)))

  module _ (fuel : ℕ) where
    abbrev TidyInput : Input W → Type 0
    TidyInput input = All IsTidy input.workers

    read_input-TidyInput :
        (is_worker : Bool) (j : V) (input : Input W)
        → TidyInput input
        → Ensures TidyInput (read_input json fuel is_worker j input)
    unfolding read_input
    read_input-TidyInput is_worker j input h = elim (Option-cases (json.find j "worker")) [
      | inr (v, e) ↦
          rw (e, read_input)
            (Ensures-bind TidyInput (read_items json (read_worker json is_worker) v) _ (λ ws g.
              Ensures-ok (All IsTidy) _
                (read_items-All IsTidy (read_worker json is_worker) (read_worker-IsTidy is_worker)
                  json v)
                g))
      | inl e ↦ elim (Option-cases (json.find j "job")) [
        | inr (v, e') ↦
            rw (e, read_input, e')
              (Ensures-bind TidyInput (read_items json (read_job json fuel) v) _ (λ js g. h))
        | inl e' ↦ rw (e, read_input, e') h
      ]
    ]

    -- The workers of the constructor are some that were read, after their `Init`.
    construct-inverse :
        (workers_json jobs_json : V) (executor : String) (input : Input W)
        → construct json fuel workers_json jobs_json executor ≡ ok input
        → (loaded : List (Worker W)) × All IsTidy loaded
          × (init_workers 0 loaded ≡ ok input.workers)
    unfolding construct
    construct-inverse wj jj executor input e =
        let b = not (executor == "YARN") in
        let blank : Input W = record { workers = []; jobs = [] } in
        let (first, e1, e2) = >>=-eq-ok (read_input json fuel b wj blank) _ e in
        let (second, e3, e4) = >>=-eq-ok (read_input json fuel b jj first) _ e2 in
        let (ws, e5, e6) = >>=-eq-ok (init_workers 0 second.workers) _ e4 in
        let h1 = Ensures-ok TidyInput _ (read_input-TidyInput b wj blank tt) e1 in
        let h2 = Ensures-ok TidyInput _ (read_input-TidyInput b jj first h1) e3 in
        let same : ws ≡ input.workers = cc in (second.workers, h2, e5 ∙ ap (λ l. ok l) same)

-- The reports of the workers are those of the workers at the end.
module _ {W : Type 0} ⦃d : Double W⦄ where
  abbrev Covers : Simulator W → Reports W → Type 0
  Covers s r = r.of_workers ≡ map worker_report s.cluster.workers

  report-Covers : (s : Simulator W) → Ensures (Covers s) (report s)
  unfolding report
  report-Covers s = Ensures-bind (Covers s) (share_reports s.cluster.users) _ (λ users e. refl)

  -- A simulation that ends has no event left, its workers are tidy, and are all in the reports. Nothing
  -- is asked of a run of the player.
  abbrev pub EndsWell : Result W → Type 0
  EndsWell (played p) = Unit
  EndsWell (simulated s r) = (top_pop s.queue ≡ none) × All IsTidy s.cluster.workers × Covers s r

module _ {V W : Type 0} ⦃d : Double W⦄ (json : Json V W) (fuel : ℕ) (file : String → Option V)
    (draw : ℕ → W → W) where
  served-EndsWell :
      (yarn : Bool) (algorithm : PlacementName) (loaded : List (Worker W)) (jobs : List (Job W))
      (first : Simulator W)
      → All IsTidy loaded
      → start yarn algorithm loaded jobs draw ≡ ok first
      → Ensures EndsWell
          (do last ← serve fuel first; reports ← report last; ok (simulated last reports))
  served-EndsWell yarn algorithm loaded jobs first h e =
      Ensures-bind EndsWell (serve fuel first) _ (λ last e1.
        let (reach, done) = serve-Reaches fuel first last e1 in
        Ensures-bind EndsWell (report last) _ (λ reports e2. (
          done,
          run-IsTidy yarn algorithm loaded jobs draw first last h e reach,
          Ensures-ok (Covers last) _ (report-Covers last) e2,
        )))

  simulate-EndsWell :
      (argv : List String) (executor : String)
      → Ensures EndsWell (simulate json fuel file draw argv executor)
  unfolding simulate
  simulate-EndsWell argv executor =
      Ensures-bind EndsWell (read_argument json fuel file draw argv 2) _ (λ wj _.
        Ensures-bind EndsWell (read_argument json fuel file draw argv 3) _ (λ jj _.
          Ensures-bind EndsWell (construct json fuel wj jj executor) _ (λ input e1.
            Ensures-bind EndsWell (read_argument json fuel file draw argv 4) _ (λ aj _.
              Ensures-bind EndsWell (set_algorithm json fuel aj) _ (λ alg _.
                let yarn = executor == "YARN" in
                Ensures-bind EndsWell (init_simulator yarn alg input.workers input.jobs draw) _
                  (λ first e2.
                    let (loaded, tidy, begun) =
                      construct-inverse json fuel wj jj executor input e1 in
                    let started : start yarn alg loaded input.jobs draw ≡ ok first =
                      unfold start in rw begun e2 in
                    served-EndsWell yarn alg loaded input.jobs first tidy started))))))

  main-EndsWell : (argv : List String) → Ensures EndsWell (main json fuel file draw argv)
  unfolding main play
  main-EndsWell argv = Ensures-bind EndsWell (or_fail (get_elem? argv 1) undefined) _ (λ mode _.
      Ensures-if EndsWell (mode == "PLAYER") _ _
        (λ _. Ensures-bind EndsWell (read_argument json fuel file draw argv 2) _ (λ j _.
          Ensures-bind EndsWell (read_player json j) _
            (λ units _. Ensures-bind EndsWell (Init.init units) _ (λ p _. tt))))
        (λ _. simulate-EndsWell argv mode))

-- Whatever files and arguments the program is given: when it ends with a simulation, the queue of events
-- is empty, the record times of every worker rise and no worker uses less than zero of any resource, and
-- the reports have the rows of every worker.
pub main_simulated :
    {V W : Type 0} ⦃d : Double W⦄ (json : Json V W) (fuel : ℕ) (file : String → Option V)
    (draw : ℕ → W → W) (argv : List String) (s : Simulator W) (r : Reports W)
    → main json fuel file draw argv ≡ ok (simulated s r)
    → (top_pop s.queue ≡ none)
      × All IsTidy s.cluster.workers
      × (r.of_workers ≡ map worker_report s.cluster.workers)
main_simulated json fuel file draw argv s r e =
    Ensures-ok EndsWell _ (main-EndsWell json fuel file draw argv) e

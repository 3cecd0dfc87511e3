-- ===== src/Main/Yarn.antt =====
-- src/main.cc and src/simulator.h: a run of the program with the executor YARN.
use Prim.Native.String.{String}
use mathlib.Core.Path.{subst}
use h_axe_simulation.Prelude.{
  ℕ, ◌≡◌, refl, false, inl, inr, List, [], ◌∷◌, All, Option, some, ok, fail, check_failed,
  Option-cases, Ensures, Ensures-bind, Ensures-ok, get_elem?,
}
use h_axe_simulation.Prelude.Int.{pos}
use h_axe_simulation.Number.{Double, zero_double}
use h_axe_simulation.Worker.State.{Worker}
use h_axe_simulation.Worker.Machine.{new_worker, load_worker, note_usage, utilization_record}
use h_axe_simulation.Worker.Records.{init_worker-fails}
use h_axe_simulation.Simulator.Start.{init_workers}
use h_axe_simulation.Loading.{Json, read_items}
use h_axe_simulation.Loading.Jobs.{read_job, read_pack, read_worker}
use h_axe_simulation.Loading.Jobs.Uniform.{read_items-All}
use h_axe_simulation.Main.{Input, read_input, construct, read_argument, simulate, main}

module _ {V W : Type 0} ⦃d : Double W⦄ (json : Json V W) where
  -- A node manager.
  abbrev IsNodeManager : Worker W → Type 0
  IsNodeManager w = w.is_worker ≡ false

  note_usage-IsNodeManager :
      (time : W) (w : Worker W) → IsNodeManager w → Ensures IsNodeManager (note_usage time w)
  unfolding note_usage
  note_usage-IsNodeManager time w h =
      Ensures-bind IsNodeManager (utilization_record time w) _ (λ r e. h)

  read_worker-IsNodeManager : (j : V) → Ensures IsNodeManager (read_worker json false j)
  unfolding read_worker load_worker new_worker
  read_worker-IsNodeManager j =
      Ensures-bind IsNodeManager (read_pack json j) _
        (λ capacity e. note_usage-IsNodeManager zero_double (new_worker false capacity) refl)

  module _ (fuel : ℕ) where
    abbrev OfNodeManagers : Input W → Type 0
    OfNodeManagers input = All IsNodeManager input.workers

    read_input-OfNodeManagers :
        (j : V) (input : Input W)
        → OfNodeManagers input
        → Ensures OfNodeManagers (read_input json fuel false j input)
    unfolding read_input
    read_input-OfNodeManagers j input h = elim (Option-cases (json.find j "worker")) [
      | inr (v, e) ↦
          rw (e, read_input)
            (Ensures-bind OfNodeManagers (read_items json (read_worker json false) v) _ (λ ws g.
              Ensures-ok (All IsNodeManager) _
                (read_items-All IsNodeManager (read_worker json false) read_worker-IsNodeManager
                  json v)
                g))
      | inl e ↦ elim (Option-cases (json.find j "job")) [
        | inr (v, e') ↦
            rw (e, read_input, e')
              (Ensures-bind OfNodeManagers (read_items json (read_job json fuel) v) _ (λ js g. h))
        | inl e' ↦ rw (e, read_input, e') h
      ]
    ]

    abbrev no_input : Input W
    no_input = record { workers = []; jobs = [] }

    construct-fails :
        (wj jj : V) (first input : Input W) (w : Worker W) (ws : List (Worker W))
        → read_input json fuel false wj no_input ≡ ok first
        → read_input json fuel false jj first ≡ ok input
        → input.workers ≡ w ∷ ws
        → construct json fuel wj jj "YARN" ≡ fail check_failed
    unfolding construct init_workers
    construct-fails wj jj first input w ws e1 e2 there =
        let h1 = Ensures-ok OfNodeManagers _ (read_input-OfNodeManagers wj no_input tt) e1 in
        let h2 = Ensures-ok OfNodeManagers _ (read_input-OfNodeManagers jj first h1) e2 in
        let stops = init_worker-fails (pos 0) w (subst (All IsNodeManager) there h2).0 in
        rw (e1, e2, there, stops) refl

-- With the executor YARN, when the two first files are read and there is a node manager among what they
-- hold, the program aborts at a check.
pub main_yarn_fails :
    {V W : Type 0} ⦃d : Double W⦄ (json : Json V W) (fuel : ℕ) (file : String → Option V)
    (draw : ℕ → W → W) (argv : List String) (workers_json jobs_json : V) (first input : Input W)
    (w : Worker W) (ws : List (Worker W))
    → get_elem? argv 1 ≡ some "YARN"
    → read_argument json fuel file draw argv 2 ≡ ok workers_json
    → read_argument json fuel file draw argv 3 ≡ ok jobs_json
    → read_input json fuel false workers_json (record { workers = []; jobs = [] }) ≡ ok first
    → read_input json fuel false jobs_json first ≡ ok input
    → input.workers ≡ w ∷ ws
    → main json fuel file draw argv ≡ fail check_failed
unfolding main simulate
main_yarn_fails json fuel file draw argv wj jj first input w ws mode a2 a3 e1 e2 there =
    let stops = construct-fails json fuel wj jj first input w ws e1 e2 there in
    rw (mode, a2, a3, stops) refl

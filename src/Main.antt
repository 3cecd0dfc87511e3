-- ===== src/Main.antt =====
-- src/main.cc, src/common.h, and what src/simulator.h reads. The files that the program reads are a
-- parameter: the value of each, or none where it cannot be opened.
pub mod Run
pub mod Yarn
pub mod Tests
use Prim.Native.String.{String}
use text.Mathlib.Text.{◌==◌}
use h_axe_simulation.Prelude.{
  ℕ, Bool, true, false, not, List, [], ◌∷◌, Option, none, some, Outcome, ok, fail, ◌>>=◌, or_fail,
  check_failed, undefined, if◌then◌else◌, get_elem?,
}
use h_axe_simulation.Number.{Double}
use h_axe_simulation.Job.{Job}
use h_axe_simulation.Worker.State.{Worker}
use h_axe_simulation.Placement.{PlacementName, fifo_name, tetris_name, other_name}
use h_axe_simulation.Simulator.{Simulator, serve}
use h_axe_simulation.Simulator.Start.{init_workers, init_simulator}
use h_axe_simulation.Simulator.Report.{Reports, report}
use h_axe_simulation.Loading.{Json, get_text, read_items}
use h_axe_simulation.Loading.Jobs.{read_job, read_worker}
use h_axe_simulation.Loading.Units.{read_player}
use h_axe_simulation.Player.Init.{Played}
use h_axe_simulation.Player.Init as Init

-- `workers_` or `node_manager_`, and `jobs_`
pub record Input (W : Type 0) : Type 0 where
  pub workers : List (Worker W)
  pub jobs : List (Job W)

-- What the program ends with.
pub data Result (W : Type 0) : Type 0 where
  played : Played W → Result W
  simulated : Simulator W → Reports W → Result W

-- The key of an algorithm in the book.
pub placement_name : String → PlacementName
placement_name name =
    if name == "FIFO" then fifo_name else if name == "TETRIS" then tetris_name else other_name

module _ {V W : Type 0} ⦃d : Double W⦄ (json : Json V W) (fuel : ℕ) where
  -- `from_json` of the simulator
  pub read_input : Bool → V → Input W → Outcome (Input W)
  unfolding read_items read_worker read_job
  read_input is_worker j input = elim (json.find j "worker") [
    | some v ↦ do
      workers ← read_items json (read_worker json is_worker) v
      ok (record input { workers = workers })
    | none ↦ elim (json.find j "job") [
      | some v ↦ do jobs ← read_items json (read_job json fuel) v; ok (record input { jobs = jobs })
      | none ↦ ok input
    ]
  ]

  -- The constructor of the simulator
  pub construct : V → V → String → Outcome (Input W)
  unfolding read_input init_workers
  construct workers_json jobs_json executor = do
    let is_worker = not (executor == "YARN")
    first ← read_input is_worker workers_json (record { workers = []; jobs = [] })
    input ← read_input is_worker jobs_json first
    workers ← init_workers 0 input.workers
    ok (record input { workers = workers })

  -- `SetAlgorithm`
  pub set_algorithm : V → Outcome PlacementName
  unfolding placement_name
  set_algorithm j = do name ← get_text json j "TaskPlacement"; ok (placement_name name)

  module _ (file : String → Option V) (draw : ℕ → W → W) where
    -- `ReadJsonFromFile` of an argument, which may be missing
    pub read_argument : List String → ℕ → Outcome V
    read_argument argv n = do
      name ← or_fail (get_elem? argv n) undefined
      or_fail (file name) check_failed

    -- The branch of a simulation
    pub simulate : List String → String → Outcome (Result W)
    unfolding read_argument construct set_algorithm init_simulator serve report
    simulate argv executor = do
      workers_json ← read_argument argv 2
      jobs_json ← read_argument argv 3
      input ← construct workers_json jobs_json executor
      alg_json ← read_argument argv 4
      algorithm ← set_algorithm alg_json
      first ← init_simulator (executor == "YARN") algorithm input.workers input.jobs draw
      last ← serve fuel first
      reports ← report last
      ok (simulated last reports)

    -- The branch of the player
    pub play : List String → Outcome (Result W)
    unfolding read_argument read_player
    play argv = do
      j ← read_argument argv 2
      units ← read_player json j
      p ← Init.init units
      ok (played p)

    -- `main`
    pub main : List String → Outcome (Result W)
    unfolding simulate play
    main argv = do
      mode ← or_fail (get_elem? argv 1) undefined
      if mode == "PLAYER" then play argv else simulate argv mode

-- ===== src/Loading/Units.antt =====
-- `from_json` of src/play_back, and the start of the player.
use Prim.Native.Char.{code}
use Prim.Native.String.{String}
use h_axe_simulation.Prelude.{List, [], ◌∷◌, ◌++◌, Outcome, ok, ◌>>=◌}
use h_axe_simulation.Prelude.Int.{ℤ}
use h_axe_simulation.Number.{Double}
use h_axe_simulation.Player.{TaskUnit}
use h_axe_simulation.Loading.{Json, at_key, get_int, get_double, get_text, read_items}
use h_axe_simulation.Loading.Text.{Bytes, erase_front, stoi}

-- The code points of a text: its bytes, if it is ASCII.
abbrev pub codes : String → Bytes
codes String.[] = []
codes (String.◌∷◌ c s) = code c ∷ codes s

-- `SetWorkerIDByLocality`: what is left of the name after six bytes.
unfoldable pub worker_id_of : Bytes → Outcome ℤ
unfolding erase_front stoi
worker_id_of locality = stoi (erase_front 6 locality)

module _ {V W : Type 0} ⦃d : Double W⦄ (json : Json V W) where
  -- of a unit; the numbers of its shard and instance are read, and nothing uses them
  pub read_unit : V → Outcome (TaskUnit W)
  unfolding worker_id_of
  read_unit j = do
    assigned ← get_int json j "assigned"
    finished ← get_int json j "finished"
    locality ← get_text json j "locality"
    resource_type ← get_int json j "resource_type"
    memory ← get_double json j "memory"
    resource_req ← get_double json j "resource_req"
    task_id ← get_int json j "task_id"
    shard_id ← get_int json j "shard_id"
    instance_id ← get_int json j "instance_id"
    worker_id ← worker_id_of (codes locality)
    ok (record {
      assigned_time = assigned;
      finished_time = finished;
      worker_id = worker_id;
      resource_type = resource_type;
      memory_of = memory;
      resource_req = resource_req;
      task_id = task_id;
    })

  -- of the record of a job, with its number and units
  pub read_job_record : V → Outcome (ℤ × List (TaskUnit W))
  unfolding read_unit read_items
  read_job_record j = do
    job_id ← get_int json j "job_id"
    tasks ← at_key json j "shard_task"
    units ← read_items json read_unit tasks
    ok (job_id, units)

  -- `CollectUnits`
  pub collect_units : List (TaskUnit W) → ℤ × List (TaskUnit W) → List (TaskUnit W)
  collect_units units (job_id, read) = units ++ read

  -- of the player, and the units of its record
  unfoldable pub read_player : V → Outcome (List (TaskUnit W))
  unfolding read_job_record collect_units
  read_player j = do job_record ← read_job_record j; ok (collect_units [] job_record)

-- ===== src/Player/Tests.antt =====
-- Two units on two workers, played back.
use h_axe_simulation.Prelude.{
  ◌≡◌, ◌≢◌, refl, List, [], ◌∷◌, ok, arith, All, some, get_elem?, replicate, length,
}
use h_axe_simulation.Prelude.Int.{ℤ, pos, ◌+ℤ◌, ◌-ℤ◌, ◌*ℤ◌, ◌≤ℤ◌}
use h_axe_simulation.Number.Whole.{whole_double, div_ℤ}
use h_axe_simulation.Resource.{ResourcePack, empty_pack}
use h_axe_simulation.Sample.{no_load}
use h_axe_simulation.User.Tests.{int-IsExact}
use h_axe_simulation.Player.{
  compute_task_num, TaskUnit, get_start_point, fix_time_line, generate_event,
}
use h_axe_simulation.Player.Records.{generate_records, first_snapshots}
use h_axe_simulation.Player.Durations.{collect_duration_record, Statistic}
use h_axe_simulation.Player.Init.{init, Played, init-fails}
use h_axe_simulation.Player.TimeLine.{fix_time_line_lem, Among}
use h_axe_simulation.Player.Load.{IsTally, IsPlayable}
use h_axe_simulation.Player.Balance.{generate_records_lem}
use h_axe_simulation.RecordMap.{report_rows}
use h_axe_simulation.RecordMap.Rows.{report_rows_lem, last_time, latest}
use h_axe_simulation.Player.Entries.{StartsAtZero, generate_records-StartsAtZero}
use h_axe_simulation.Player.Collect.{collect_duration_record_lem, durations_of, HasStatistic}

abbrev computing : TaskUnit ℤ
computing = record {
  assigned_time = pos 7;
  finished_time = pos 9;
  worker_id = pos 0;
  resource_type = pos 0;
  memory_of = pos 5;
  resource_req = pos 2;
  task_id = pos 0;
}

abbrev sending : TaskUnit ℤ
sending = record {
  assigned_time = pos 8;
  finished_time = pos 11;
  worker_id = pos 1;
  resource_type = pos 1;
  memory_of = pos 3;
  resource_req = pos 40;
  task_id = pos 1;
}

abbrev units : List (TaskUnit ℤ)
units = computing ∷ sending ∷ []

int-IsTally : IsTally ℤ
unfolding ◌+ℤ◌ ◌-ℤ◌ div_ℤ
int-IsTally = record {
  exact = int-IsExact;
  zero_least = refl;
  one_above = refl;
  positive = λ x h. ground arith;
  sum = λ x y g h. ground arith;
  share = λ x n h. ground arith;
}

computing-IsPlayable : IsPlayable 2 computing
computing-IsPlayable = record {
  asks = refl;
  in_time = refl;
  place = 0;
  placed = refl;
  in_range = omega arith;
}

sending-IsPlayable : IsPlayable 2 sending
sending-IsPlayable = record {
  asks = refl;
  in_time = refl;
  place = 1;
  placed = refl;
  in_range = omega arith;
}

abbrev load : ℤ → ℤ → ℤ → ResourcePack ℤ
load c m n = record { cpu_of = c; memory_of = m; disk_of = pos 0; network_of = n }

abbrev computed : List (ℤ × ResourcePack ℤ)
computed = (pos 0, no_load) ∷ (pos 7, load (pos 2) (pos 5) (pos 0)) ∷ (pos 9, no_load) ∷ []

abbrev sent : List (ℤ × ResourcePack ℤ)
sent = (pos 0, no_load) ∷ (pos 8, load (pos 0) (pos 3) (pos 10)) ∷ (pos 11, no_load) ∷ []

run_records :
    generate_records (pos 1) (generate_event units) (first_snapshots (pos 1))
    ≡ ok (no_load ∷ no_load ∷ [], computed ∷ sent ∷ [])
unfolding generate_records generate_event first_snapshots ◌-ℤ◌ ◌+ℤ◌ div_ℤ
run_records = refl

abbrev steady : ℤ → Statistic ℤ
steady x = record { mean = x; variance = pos 0; most = x; least = x }

run_durations :
    collect_duration_record units
    ≡ ok ((pos 2 ∷ []) ∷ (pos 3 ∷ []) ∷ [], steady (pos 2) ∷ steady (pos 3) ∷ [])
unfolding collect_duration_record ◌+ℤ◌ ◌-ℤ◌ div_ℤ ◌*ℤ◌
run_durations = refl

abbrev played : Played ℤ
played = record {
  units = units;
  snapshots = no_load ∷ no_load ∷ [];
  records = computed ∷ sent ∷ [];
  rows = [];
  durations = [];
  statistic_record = [];
  peaks = [];
}

fix_time_line_lem_example :
    (start : ℤ) × (get_start_point units ≡ ok start)
    × All (λ (v : TaskUnit ℤ). pos 0 ≤ℤ v.assigned_time) (fix_time_line start units)
    × ((first : TaskUnit ℤ) × Among first (fix_time_line start units)
        × (first.assigned_time ≡ pos 0))
fix_time_line_lem_example = fix_time_line_lem computing (sending ∷ [])

generate_records_lem_example :
    (ms : List (List (ℤ × ResourcePack ℤ))) × (generate_records
        (pos 1)
        (generate_event units)
        (first_snapshots (pos 1))
      ≡ ok (replicate 2 empty_pack, ms))
generate_records_lem_example =
    generate_records_lem int-IsTally 1 units (computing-IsPlayable, (sending-IsPlayable, tt))

generate_records-StartsAtZero_example : All StartsAtZero (computed ∷ sent ∷ [])
generate_records-StartsAtZero_example =
    generate_records-StartsAtZero (pos 1) (generate_event units) (first_snapshots (pos 1))
      (no_load ∷ no_load ∷ []) (computed ∷ sent ∷ []) run_records

report_rows_lem_example :
    (pos 0 +ℤ pos (length (report_rows computed))
      ≡ last_time (pos 0) ((pos 7, load (pos 2) (pos 5) (pos 0)) ∷ (pos 9, no_load) ∷ []) +ℤ pos 1)
    × (get_elem? (report_rows computed) 8 ≡ latest (pos 0 +ℤ pos 8) computed)
unfolding report_rows ◌-ℤ◌ ◌+ℤ◌
report_rows_lem_example =
    report_rows_lem (pos 0) no_load ((pos 7, load (pos 2) (pos 5) (pos 0)) ∷ (pos 9, no_load) ∷ [])
      8 ((refl, (refl, tt)), ((refl, tt), (tt, tt))) (omega arith)

collect_duration_record_lem_example :
    (get_elem? ((pos 2 ∷ []) ∷ (pos 3 ∷ []) ∷ []) 1 ≡ some (durations_of 1 units))
    × HasStatistic ((pos 2 ∷ []) ∷ (pos 3 ∷ []) ∷ []) (steady (pos 2) ∷ steady (pos 3) ∷ []) 1
    × (compute_task_num units ≡ ok (pos 2 -ℤ pos 1))
collect_duration_record_lem_example =
    collect_duration_record_lem units ((pos 2 ∷ []) ∷ (pos 3 ∷ []) ∷ [])
      (steady (pos 2) ∷ steady (pos 3) ∷ []) 1 run_durations (omega arith)

init-fails_example : init units ≢ ok played
init-fails_example = init-fails units played

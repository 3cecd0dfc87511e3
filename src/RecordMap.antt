-- ===== src/RecordMap.antt =====
-- The maps from times to records that src/worker/worker_abstract.h and src/play_back/player.h keep, and
-- the rows that the ReportUtilization of both writes for one of them. A map is a list of its entries in
-- the order of their times.
pub mod Rows
pub mod Entries
use h_axe_simulation.Prelude.{ℕ, zero, suc, List, [], ◌∷◌, ◌++◌, if◌then◌else◌}
use h_axe_simulation.Prelude.Int.{ℤ, pos, pos_part, ltb_ℤ, ◌+ℤ◌, ◌-ℤ◌}

-- `std::map<int, std::vector<double>>`, and of `int64_t`
abbrev pub RecordMap : Type 0 → Type 0
RecordMap V = List (ℤ × V)

module _ {V : Type 0} where
  -- `insert` of a map: an entry that is there stays.
  unfoldable pub insert_entry : ℤ → V → RecordMap V → RecordMap V
  insert_entry t r [] = (t, r) ∷ []
  insert_entry t r ((s, q) ∷ m) =
      if ltb_ℤ t s
      then (t, r) ∷ (s, q) ∷ m
      else if ltb_ℤ s t
      then (s, q) ∷ insert_entry t r m
      else (s, q) ∷ m

  -- `while (time < next_iter->first)`: the record again for each time up to the next one; the fuel
  -- is the length of the gap.
  pub fill_gap : ℕ → ℤ → ℤ → V → List V
  fill_gap zero time next r = []
  fill_gap (suc n) time next r =
      let more = fill_gap n (time +ℤ pos 1) next r in if ltb_ℤ time next then r ∷ more else []

  -- The rows of `ReportUtilization` for one worker.
  unfoldable pub report_rows : RecordMap V → List V
  unfolding fill_gap
  report_rows [] = []
  report_rows ((time, r) ∷ []) = r ∷ []
  report_rows ((time, r) ∷ (next, q) ∷ m) =
      (r ∷ fill_gap (pos_part (next -ℤ time)) (time +ℤ pos 1) next r) ++ report_rows ((next, q) ∷ m)

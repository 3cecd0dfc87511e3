-- ===== src/Player/Durations.antt =====
-- src/play_back/player.h: CollectDurationRecord.
use h_axe_simulation.Prelude.{
  List, [], ◌∷◌, ◌++◌, Outcome, ok, fail, ◌>>=◌, or_fail, undefined, length_error, if◌then◌else◌,
  replicate, set, get_elem?, length,
}
use h_axe_simulation.Prelude.Int.{ℤ, pos, negsuc, ◌+ℤ◌, ◌-ℤ◌}
use h_axe_simulation.Number.{Double, lt, zero_double, whole, ◌⊕◌, ◌⊖◌, ◌⊗◌, ◌⊘◌}
use h_axe_simulation.Player.{TaskUnit, compute_task_num}

-- the four values that are pushed
pub record Statistic (W : Type 0) : Type 0 where
  pub mean : W
  pub variance : W
  pub most : W
  pub least : W

module _ {W : Type 0} ⦃d : Double W⦄ where
  pub duration_of : TaskUnit W → W
  duration_of u = whole (u.finished_time -ℤ u.assigned_time)

  -- `unit_duration_record_[unit.GetTaskID()].push_back(...)`
  unfoldable pub push_duration : ℤ → W → List (List W) → Outcome (List (List W))
  push_duration (negsuc k) x rows = fail undefined
  push_duration (pos k) x rows = do
    row ← or_fail (get_elem? rows k) undefined
    ok (set rows k (row ++ x ∷ []))

  unfoldable pub push_durations : List (TaskUnit W) → List (List W) → Outcome (List (List W))
  unfolding push_duration duration_of
  push_durations [] rows = ok rows
  push_durations (u ∷ us) rows = do
    rows' ← push_duration u.task_id (duration_of u) rows
    push_durations us rows'

  -- `std::accumulate(..., 0)`: the sum is an `int`, so every step drops the fraction.
  pub accumulate : ℤ → List W → ℤ
  accumulate sum [] = sum
  accumulate sum (x ∷ xs) = accumulate (d.truncate (whole sum ⊕ x)) xs

  squares : W → W → List W → W
  squares avg sum [] = sum
  squares avg sum (r ∷ rs) = squares avg (sum ⊕ (r ⊖ avg) ⊗ (r ⊖ avg)) rs

  pub greatest : W → List W → W
  greatest max [] = max
  greatest max (r ∷ rs) = greatest (if lt r max then max else r) rs

  pub smallest : W → List W → W
  smallest min [] = min
  smallest min (r ∷ rs) = smallest (if lt min r then min else r) rs

  -- One round of the second loop; `unit_duration_record_[i][0]` of no durations has no defined
  -- behaviour.
  unfoldable pub statistic_of : List W → Outcome (Statistic W)
  unfolding accumulate squares greatest smallest
  statistic_of [] = fail undefined
  statistic_of (x ∷ xs) =
      let size : W = whole (pos (length (x ∷ xs))) in
      let avg : W = whole (accumulate (pos 0) (x ∷ xs)) ⊘ size in
      ok (record {
        mean = avg;
        variance = squares avg zero_double (x ∷ xs) ⊘ size;
        most = greatest x (x ∷ xs);
        least = smallest x (x ∷ xs);
      })

  unfoldable pub statistics : List (List W) → Outcome (List (Statistic W))
  unfolding statistic_of
  statistics [] = ok []
  statistics (row ∷ rows) = do s ← statistic_of row; ss ← statistics rows; ok (s ∷ ss)

  -- `resize` of an empty vector
  unfoldable pub resize : ℤ → Outcome (List (List W))
  resize (pos n) = ok (replicate n [])
  resize (negsuc n) = fail length_error

  -- `CollectDurationRecord`
  unfoldable pub collect_duration_record :
      List (TaskUnit W) → Outcome (List (List W) × List (Statistic W))
  unfolding push_durations statistics resize compute_task_num
  collect_duration_record units = do
    task_num ← compute_task_num units
    empty ← resize (task_num +ℤ pos 1)
    rows ← push_durations units empty
    all ← statistics rows
    ok (rows, all)

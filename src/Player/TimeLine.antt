-- ===== src/Player/TimeLine.antt =====
-- src/play_back/player.h: GetStartPoint, FixTimeLine and ComputeWorkerNum: the time line starts at 0.
use h_axe_simulation.Prelude.{
  ℕ, zero, suc, List, [], ◌∷◌, ok, ◌≡◌, refl, All, some, get_elem?, if◌then◌else◌, arith, ◌⊎◌, inl,
  inr, map, Bool-cases, ap, sym,
}
use h_axe_simulation.Prelude.Int.{ℤ, pos, ltb_ℤ, ◌≤ℤ◌, int_laws}
use h_axe_simulation.Player.{TaskUnit, start_loop, get_start_point, fix_time_line, shift}

module _ {W : Type 0} where
  -- The unit is one of the list.
  abbrev pub Among : TaskUnit W → List (TaskUnit W) → Type 0
  Among u us = (i : ℕ) × (get_elem? us i ≡ some u)

  start_loop_le :
      (s : ℤ) (us : List (TaskUnit W))
      → (start_loop s us ≤ℤ s) × All (λ u. start_loop s us ≤ℤ u.assigned_time) us
  unfolding start_loop
  start_loop_le s [] = (omega arith, tt)
  start_loop_le s (u ∷ us) =
      let (below, all) =
        start_loop_le (if ltb_ℤ u.assigned_time s then u.assigned_time else s) us in
      (ground arith, (ground arith, all))

  start_loop-Among :
      (s : ℤ) (us : List (TaskUnit W))
      → (start_loop s us ≡ s)
        ⊎ ((u : TaskUnit W) × Among u us × (u.assigned_time ≡ start_loop s us))
  unfolding start_loop
  start_loop-Among s [] = inl refl
  start_loop-Among s (u ∷ us) =
      elim (start_loop-Among (if ltb_ℤ u.assigned_time s then u.assigned_time else s) us) [
        | inr (v, (i, e), h) ↦ inr (v, (suc i, e), h)
        | inl e ↦ elim (Bool-cases (ltb_ℤ u.assigned_time s)) [
          | inl h ↦ inr (u, (0, refl), ground arith)
          | inr h ↦ inl (ground arith)
        ]
      ]

  shift-All :
      (s : ℤ) (us : List (TaskUnit W))
      → All (λ u. s ≤ℤ u.assigned_time) us
      → All (λ u. pos 0 ≤ℤ u.assigned_time) (map (shift s) us)
  unfolding shift
  shift-All s [] h = tt
  shift-All s (u ∷ us) (h, hs) = (grind int_laws, shift-All s us hs)

  shift-Among :
      (s : ℤ) (us : List (TaskUnit W)) (u : TaskUnit W)
      → Among u us
      → Among (shift s u) (map (shift s) us)
  shift-Among s [] u (i, e) = cc
  shift-Among s (v ∷ us) u (zero, e) = (0, let same : v ≡ u = cc in ap (λ w. some (shift s w)) same)
  shift-Among s (v ∷ us) u (suc i, e) = let (j, f) = shift-Among s us u (i, e) in (suc j, f)

  abbrev IsEarliest : ℤ → TaskUnit W → List (TaskUnit W) → Type 0
  IsEarliest start u us =
      Among u us × (u.assigned_time ≡ start) × All (λ v. start ≤ℤ v.assigned_time) us

  start_loop_lem :
      (u : TaskUnit W) (us : List (TaskUnit W))
      → (first : TaskUnit W) × IsEarliest (start_loop u.assigned_time (u ∷ us)) first (u ∷ us)
  start_loop_lem u us =
      let all = (start_loop_le u.assigned_time (u ∷ us)).1 in
      elim (start_loop-Among u.assigned_time (u ∷ us)) [
        | inl e ↦ (u, ((0, refl), sym e, all))
        | inr (v, among, e) ↦ (v, (among, e, all))
      ]

-- The time line of units, one or more, starts at 0 when it is fixed: GetStartPoint returns the least
-- assigned time, and after FixTimeLine no unit is assigned before 0 and one is assigned at 0.
pub fix_time_line_lem :
    {W : Type 0} (u : TaskUnit W) (us : List (TaskUnit W))
    → (start : ℤ) × (get_start_point (u ∷ us) ≡ ok start)
      × All (λ v. pos 0 ≤ℤ v.assigned_time) (fix_time_line start (u ∷ us))
      × ((first : TaskUnit W) × Among first (fix_time_line start (u ∷ us))
          × (first.assigned_time ≡ pos 0))
unfolding get_start_point fix_time_line shift
fix_time_line_lem u us =
    let (first, (among, e, all)) = start_loop_lem u us in
    let start = start_loop u.assigned_time (u ∷ us) in
    (
      start,
      refl,
      shift-All start (u ∷ us) all,
      (shift start first, shift-Among start (u ∷ us) first among, let z = e in grind int_laws),
    )

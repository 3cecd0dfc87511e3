-- ===== src/Player/Collect.antt =====
-- src/play_back/player.h: what CollectDurationRecord gathers for each task.
use mathlib.Core.Path.{subst}
use h_axe_simulation.Prelude.{
  ℕ, zero, suc, ◌<◌, ◌≡◌, ◌≢◌, refl, sym, ap, ◌∙◌, inl, inr, List, [], ◌∷◌, ◌++◌, Bool-cases, arith,
  some, if◌then◌else◌, ok, >>=-eq-ok, or_fail, or_fail-eq-ok, undefined, set, get_elem?, length,
  replicate, get_elem?-set_self, get_elem?-set_ne, get_elem?-replicate, lt_of_get_elem?,
  append_assoc, append-nil, length-set, length-replicate,
}
use h_axe_simulation.Prelude.Int.{ℤ, pos, negsuc, eqb_ℤ, ◌+ℤ◌, ◌-ℤ◌}
use h_axe_simulation.Number.{Double}
use h_axe_simulation.Player.{TaskUnit, compute_task_num}
use h_axe_simulation.Player.Durations.{
  Statistic, duration_of, push_duration, push_durations, statistic_of, statistics, resize,
  collect_duration_record,
}

one_less : (a b : ℤ) → a +ℤ pos 1 ≡ b → a ≡ b -ℤ pos 1
unfolding ◌+ℤ◌ ◌-ℤ◌
one_less a b e = ground arith

module _ {W : Type 0} ⦃d : Double W⦄ where
  -- The durations of the units of a task, in the order of the units.
  pub durations_of : ℕ → List (TaskUnit W) → List W
  durations_of k [] = []
  durations_of k (u ∷ us) =
      if eqb_ℤ u.task_id (pos k) then duration_of u ∷ durations_of k us else durations_of k us

  -- One duration goes to the end of its row.
  push_duration_lem :
      (i : ℤ) (x : W) (rows rows' : List (List W)) (k : ℕ) (row : List W)
      → push_duration i x rows ≡ ok rows'
      → get_elem? rows k ≡ some row
      → get_elem? rows' k ≡ some (if eqb_ℤ i (pos k) then row ++ x ∷ [] else row)
  unfolding push_duration
  push_duration_lem (negsuc j) x rows rows' k row e h = absurd cc
  push_duration_lem (pos j) x rows rows' k row e h =
      let (old, e1, e2) = >>=-eq-ok (or_fail (get_elem? rows j) undefined) _ e in
      let there = or_fail-eq-ok (get_elem? rows j) undefined e1 in
      let same : set rows j (old ++ x ∷ []) ≡ rows' = cc in
      ap (λ l. get_elem? l k) (sym same) ∙ elim (Bool-cases (eqb_ℤ (pos j) (pos k))) [
        | inl c ↦
            let eq : j ≡ k = ground arith in
            let eq' : old ≡ row = let g = ap (λ i. get_elem? rows i) eq in cc in
            rw c (
              ap (λ i. get_elem? (set rows j (old ++ x ∷ [])) i) (sym eq)
              ∙ get_elem?-set_self rows j _ (lt_of_get_elem? rows j there)
              ∙ ap (λ (l : List W). some (l ++ x ∷ [])) eq')
        | inr c ↦ let ne : j ≢ k = λ g. ground arith in rw c (get_elem?-set_ne rows j k _ ne ∙ h)
      ]

  push_durations_lem :
      (us : List (TaskUnit W)) (rows rows' : List (List W)) (k : ℕ) (row : List W)
      → push_durations us rows ≡ ok rows'
      → get_elem? rows k ≡ some row
      → get_elem? rows' k ≡ some (row ++ durations_of k us)
  unfolding push_durations durations_of
  push_durations_lem [] rows rows' k row e h =
      let same : rows ≡ rows' = cc in
      ap (λ l. get_elem? l k) (sym same) ∙ h ∙ ap (λ (l : List W). some l) (sym (append-nil row))
  push_durations_lem (u ∷ us) rows rows' k row e h =
      let (mid, e1, e2) = >>=-eq-ok (push_duration u.task_id (duration_of u) rows) _ e in
      let step = push_duration_lem u.task_id (duration_of u) rows mid k row e1 h in
      elim (Bool-cases (eqb_ℤ u.task_id (pos k))) [
        | inl c ↦
            let step' : get_elem? mid k ≡ some (row ++ duration_of u ∷ []) = step ∙ rw c refl in
            rw c (
              push_durations_lem us mid rows' k (row ++ duration_of u ∷ []) e2 step'
              ∙ ap (λ (l : List W). some l)
                  (append_assoc row (duration_of u ∷ []) (durations_of k us)))
        | inr c ↦
            let step' : get_elem? mid k ≡ some row = step ∙ rw c refl in
            rw c (push_durations_lem us mid rows' k row e2 step')
      ]

  statistic_of-some :
      (row : List W) (s : Statistic W)
      → statistic_of row ≡ ok s
      → (x : W) × (xs : List W) × (row ≡ x ∷ xs)
  unfolding statistic_of
  statistic_of-some [] s e = absurd cc
  statistic_of-some (x ∷ xs) s e = (x, xs, refl)

  -- Every row has its statistic, and none is empty.
  abbrev pub HasStatistic : List (List W) → List (Statistic W) → ℕ → Type 0
  HasStatistic rows all k =
      (x : W) × (xs : List W) × (s : Statistic W) × (get_elem? rows k ≡ some (x ∷ xs))
      × (get_elem? all k ≡ some s)
      × (statistic_of (x ∷ xs) ≡ ok s)

  HasStatistic-first :
      (row : List W) (s : Statistic W) (rows : List (List W)) (all : List (Statistic W))
      → statistic_of row ≡ ok s
      → HasStatistic (row ∷ rows) (s ∷ all) 0
  HasStatistic-first row s rows all e =
      let (x, xs, g) = statistic_of-some row s e in
      (
        x,
        xs,
        s,
        ap (λ (l : List W). some l) g,
        refl,
        ap (λ (l : List W). statistic_of l) (sym g) ∙ e,
      )

  statistics_lem :
      (rows : List (List W)) (all : List (Statistic W)) (k : ℕ)
      → statistics rows ≡ ok all
      → k < length rows
      → HasStatistic rows all k
  unfolding statistics
  statistics_lem [] all k e b = absurd (omega arith)
  statistics_lem (row ∷ rows) all zero e b =
      let (s, e1, e2) = >>=-eq-ok (statistic_of row) _ e in
      let (ss, e3, e4) = >>=-eq-ok (statistics rows) _ e2 in
      let same : s ∷ ss ≡ all = cc in
      subst (λ l. HasStatistic (row ∷ rows) l 0) same (HasStatistic-first row s rows ss e1)
  statistics_lem (row ∷ rows) all (suc k) e b =
      let (s, e1, e2) = >>=-eq-ok (statistic_of row) _ e in
      let (ss, e3, e4) = >>=-eq-ok (statistics rows) _ e2 in
      let same : s ∷ ss ≡ all = cc in
      subst (λ l. HasStatistic (row ∷ rows) l (suc k)) same
        (statistics_lem rows ss k e3 (omega arith))

  push_duration-length :
      (i : ℤ) (x : W) (rows rows' : List (List W))
      → push_duration i x rows ≡ ok rows'
      → length rows' ≡ length rows
  unfolding push_duration
  push_duration-length (negsuc j) x rows rows' e = absurd cc
  push_duration-length (pos j) x rows rows' e =
      let (old, e1, e2) = >>=-eq-ok (or_fail (get_elem? rows j) undefined) _ e in
      let same : set rows j (old ++ x ∷ []) ≡ rows' = cc in
      ap (λ (l : List (List W)). length l) (sym same) ∙ length-set rows j (old ++ x ∷ [])

  push_durations-length :
      (us : List (TaskUnit W)) (rows rows' : List (List W))
      → push_durations us rows ≡ ok rows'
      → length rows' ≡ length rows
  unfolding push_durations
  push_durations-length [] rows rows' e =
      let same : rows ≡ rows' = cc in ap (λ (l : List (List W)). length l) (sym same)
  push_durations-length (u ∷ us) rows rows' e =
      let (mid, e1, e2) = >>=-eq-ok (push_duration u.task_id (duration_of u) rows) _ e in
      push_durations-length us mid rows' e2
      ∙ push_duration-length u.task_id (duration_of u) rows mid e1

  resize-replicate :
      (size : ℤ) (empty : List (List W))
      → resize size ≡ ok empty
      → (empty ≡ replicate (length empty) []) × (size ≡ pos (length empty))
  unfolding resize
  resize-replicate (negsuc n) empty e = absurd cc
  resize-replicate (pos n) empty e =
      let same : replicate n [] ≡ empty = cc in
      let size : n ≡ length empty =
        sym (length-replicate n []) ∙ ap (λ (l : List (List W)). length l) same in
      (sym same ∙ ap (λ m. replicate m []) size, ap (λ m. pos m) size)

  resize_lem :
      (task_num : ℤ) (empty : List (List W))
      → resize (task_num +ℤ pos 1) ≡ ok empty
      → (empty ≡ replicate (length empty) []) × (task_num ≡ pos (length empty) -ℤ pos 1)
  resize_lem task_num empty e =
      let (blank, size) = resize-replicate (task_num +ℤ pos 1) empty e in
      (blank, one_less task_num (pos (length empty)) size)

  abbrev IsCollected : List (TaskUnit W) → ℕ → List (List W) × List (Statistic W) → Type 0
  IsCollected us k (rows, all) =
      (get_elem? rows k ≡ some (durations_of k us))
      × HasStatistic rows all k
      × (compute_task_num us ≡ ok (pos (length rows) -ℤ pos 1))

  collect_parts :
      (us : List (TaskUnit W)) (task_num : ℤ) (empty rows : List (List W))
      (all : List (Statistic W)) (k : ℕ)
      → compute_task_num us ≡ ok task_num
      → resize (task_num +ℤ pos 1) ≡ ok empty
      → push_durations us empty ≡ ok rows
      → statistics rows ≡ ok all
      → k < length rows
      → IsCollected us k (rows, all)
  collect_parts us task_num empty rows all k e1 e2 e3 e4 b =
      let (blank, number) = resize_lem task_num empty e2 in
      let same = push_durations-length us empty rows e3 in
      let first : get_elem? empty k ≡ some [] =
        ap (λ l. get_elem? l k) blank ∙ get_elem?-replicate (length empty) k [] (omega arith) in
      (
        push_durations_lem us empty rows k [] e3 first,
        statistics_lem rows all k e4 b,
        e1 ∙ ap (λ (i : ℤ). ok i) number ∙ ap (λ n. ok (pos n -ℤ pos 1)) (sym same),
      )

-- When the durations are collected without an abort, every task number up to the greatest has units:
-- its row holds the durations of just these, in the order of the units, and its statistic is that of
-- the row.
pub collect_duration_record_lem :
    {W : Type 0} ⦃d : Double W⦄ (us : List (TaskUnit W)) (rows : List (List W))
    (all : List (Statistic W)) (k : ℕ)
    → collect_duration_record us ≡ ok (rows, all)
    → k < length rows
    → (get_elem? rows k ≡ some (durations_of k us))
      × HasStatistic rows all k
      × (compute_task_num us ≡ ok (pos (length rows) -ℤ pos 1))
unfolding collect_duration_record
collect_duration_record_lem {W} us rows all k e b =
    let (task_num, e1, e2) = >>=-eq-ok (compute_task_num us) _ e in
    let (empty, e3, e4) = >>=-eq-ok (resize (task_num +ℤ pos 1)) _ e2 in
    let (rows', e5, e6) = >>=-eq-ok (push_durations us empty) _ e4 in
    let (all', e7, e8) = >>=-eq-ok (statistics rows') _ e6 in
    let same_rows : rows' ≡ rows = cc in
    let same_all : all' ≡ all = cc in
    collect_parts us task_num empty rows all k e1 e3
      (e5 ∙ ap (λ (l : List (List W)). ok l) same_rows)
      (ap (λ (l : List (List W)). statistics l) (sym same_rows)
        ∙ e7
        ∙ ap (λ (l : List (Statistic W)). ok l) same_all)
      b

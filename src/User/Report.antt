-- ===== src/User/Report.antt =====
-- src/user.h: ReportShare. A row is its number in the first column, and the shares.
use h_axe_simulation.Prelude.{
  ℕ, zero, suc, ◌≡◌, refl, sym, ap, ◌∙◌, true, inl, inr, Bool-cases, List, [], ◌∷◌, ◌++◌, map,
  arith, Outcome, ok, All, ◌>>=◌, or_fail, undefined, if◌then◌else◌, get_elem?, replicate,
}
use h_axe_simulation.Prelude.Int.{ℤ, pos, pos_part, ltb_ℤ, leb_ℤ, ◌+ℤ◌, ◌-ℤ◌}
use h_axe_simulation.Number.{Double}
use h_axe_simulation.User.{User}
use h_axe_simulation.RecordMap.{RecordMap, report_rows}
use h_axe_simulation.RecordMap.Rows.{IsRising, rows_step}

module _ {W : Type 0} where
  -- The loop on `j` from 1.
  unfoldable shares_in : List W → List W
  shares_in [] = []
  shares_in (time ∷ shares) = shares

  -- `while (time < static_cast<int>(next_record[0]))`, with the time after it; the fuel is the length
  -- of the gap.
  unfoldable repeat_row : ℕ → ℤ → ℤ → List W → List (ℤ × List W) × ℤ
  repeat_row zero time next row = ([], time)
  repeat_row (suc n) time next row =
      let (more, time') = repeat_row n (time +ℤ pos 1) next row in
      if ltb_ℤ time next then ((time, row) ∷ more, time') else ([], time)

module _ {W : Type 0} ⦃d : Double W⦄ where
  unfoldable share_rows : ℤ → List (List W) → Outcome (List (ℤ × List W))
  unfolding shares_in repeat_row
  share_rows time [] = ok []
  share_rows time (r ∷ []) = ok ((time, shares_in r) ∷ [])
  share_rows time (r ∷ q ∷ m) = do
    start ← or_fail (get_elem? q 0) undefined
    let next = d.truncate start
    let now = time +ℤ pos 1
    let (more, time') = repeat_row (pos_part (next -ℤ now)) now next (shares_in r)
    rest ← share_rows time' (q ∷ m)
    ok ((time, shares_in r) ∷ (more ++ rest))

  -- `ReportShare`: the rows, after the line that names the columns.
  unfoldable pub report_share : User W → Outcome (List (ℤ × List W))
  unfolding share_rows
  report_share u = share_rows (pos 0) u.records

one_more : (k : ℤ) (n : ℕ) → (k +ℤ pos 1) +ℤ pos n ≡ k +ℤ pos (suc n)
unfolding ◌+ℤ◌
one_more k n = ground arith

-- Rows with their numbers.
pub numbered {ℓ} : {A : Type ℓ} → ℤ → List A → List (ℤ × A)
numbered k [] = []
numbered k (x ∷ xs) = (k, x) ∷ numbered (k +ℤ pos 1) xs

module _ {W : Type 0} where
  numbered-append :
      (k : ℤ) (n : ℕ) (r : List W) (ys : List (List W))
      → numbered k (replicate n r ++ ys) ≡ numbered k (replicate n r) ++ numbered (k +ℤ pos n) ys
  unfolding numbered ◌+ℤ◌
  numbered-append k zero r ys =
      let none_left : k ≡ k +ℤ pos 0 = ground arith in ap (λ i. numbered i ys) none_left
  numbered-append k (suc n) r ys =
      let there : (k +ℤ pos 1) +ℤ pos n ≡ k +ℤ pos (suc n) = one_more k n in
      ap (λ l. (k, r) ∷ l)
        (numbered-append (k +ℤ pos 1) n r ys
          ∙ ap (λ i. numbered (k +ℤ pos 1) (replicate n r) ++ numbered i ys) there)

  repeat_row_lem :
      (n : ℕ) (time next : ℤ) (r : List W)
      → next ≡ time +ℤ pos n
      → repeat_row n time next r ≡ (numbered time (replicate n r), next)
  unfolding repeat_row numbered ◌+ℤ◌
  repeat_row_lem zero time next r e =
      let same : time ≡ next = ground arith in ap (λ i. ([], i)) same
  repeat_row_lem (suc n) time next r e =
      let before : ltb_ℤ time next ≡ true = ground arith in
      let more = repeat_row_lem n (time +ℤ pos 1) next r (ground arith) in rw (before, more) refl

-- The greater of two times.
abbrev pub later_of : ℤ → ℤ → ℤ
later_of a b = if ltb_ℤ a b then b else a

later_lt : (k m : ℤ) → ltb_ℤ k (later_of (k +ℤ pos 1) m) ≡ true
unfolding ◌+ℤ◌
later_lt k m = ground arith

before_trans : (j k n : ℤ) → leb_ℤ j k ≡ true → ltb_ℤ k n ≡ true → ltb_ℤ j n ≡ true
before_trans j k n h e = ground arith

weaken : (j n : ℤ) → ltb_ℤ j n ≡ true → leb_ℤ j n ≡ true
weaken j n h = ground arith

module _ {W : Type 0} ⦃d : Double W⦄ where
  -- Times and shares as the records of a user.
  abbrev pub records_of : List (W × List W) → List (List W)
  records_of ps = map (λ (p : W × List W). p.0 ∷ p.1) ps

  -- The numbers of the rows that records come to stand at, after one at number `k`: each stands at its
  -- whole second, or right after the record before it, whichever is later.
  abbrev pub placed : ℤ → List (W × List W) → RecordMap (List W)
  placed k [] = []
  placed k ((t, v) ∷ ps) =
      let next = later_of (k +ℤ pos 1) (d.truncate t) in (next, v) ∷ placed next ps

  placed_after :
      (j k : ℤ) (ps : List (W × List W))
      → leb_ℤ j k ≡ true
      → All (λ (e : ℤ × List W). ltb_ℤ j (e.0) ≡ true) (placed k ps)
  placed_after j k [] h = tt
  placed_after j k ((t, v) ∷ ps) h =
      let next = later_of (k +ℤ pos 1) (d.truncate t) in
      let step = later_lt k (d.truncate t) in
      let after : ltb_ℤ j next ≡ true = before_trans j k next h step in
      (after, placed_after j next ps (weaken j next after))

  placed-IsRising : (k : ℤ) (v : List W) (ps : List (W × List W)) → IsRising ((k, v) ∷ placed k ps)
  placed-IsRising k v [] = (tt, tt)
  placed-IsRising k v ((t, q) ∷ ps) = (
    placed_after k k ((t, q) ∷ ps) (ground arith),
    placed-IsRising (later_of (k +ℤ pos 1) (d.truncate t)) q ps,
  )

  -- The rows of a gap, and the number after it, whether or not the next record is due.
  gap_lem :
      (now m : ℤ) (g : ℕ) (v : List W)
      → later_of now m ≡ now +ℤ pos g
      → repeat_row (pos_part (m -ℤ now)) now m v ≡ (numbered now (replicate g v), later_of now m)
  unfolding repeat_row numbered ◌+ℤ◌ ◌-ℤ◌
  gap_lem now m g v e = elim (Bool-cases (ltb_ℤ now m)) [
    | inl a ↦
        let due : m ≡ now +ℤ pos g = sym (rw a refl) ∙ e in
        let gap : pos_part (m -ℤ now) ≡ g = ground arith in
        rw (gap, a) (repeat_row_lem g now m v due)
    | inr a ↦
        let gap : pos_part (m -ℤ now) ≡ 0 = ground arith in
        let none_left : g ≡ 0 = ground arith in rw (gap, none_left, a) refl
  ]

  share_rows_lem :
      (k : ℤ) (t : W) (v : List W) (ps : List (W × List W))
      → share_rows k (records_of ((t, v) ∷ ps))
        ≡ ok (numbered k (report_rows ((k, v) ∷ placed k ps)))
  unfolding share_rows report_rows numbered
  share_rows_lem k t v [] = refl
  share_rows_lem k t v ((due, q) ∷ ps) =
      let now = k +ℤ pos 1 in
      let next = later_of now (d.truncate due) in
      let (g, e, rows) = rows_step k next v q (placed next ps) (later_lt k (d.truncate due)) in
      let far : next ≡ now +ℤ pos g = e ∙ sym (one_more k g) in
      let gap = gap_lem now (d.truncate due) g v far in
      let rest = share_rows_lem next due q ps in
      let later = report_rows ((next, q) ∷ placed next ps) in
      let whole =
        ap (λ i. numbered now (replicate g v) ++ numbered i later) far
        ∙ sym (numbered-append now g v later) in
      let all = ap (λ l. (k, v) ∷ l) whole ∙ ap (λ l. numbered k l) (sym rows) in
      rw (gap, rest) (ap (λ l. ok l) all)

-- The report of a user who has records, each with its time, is made, and its rows are numbered from 0 on.
-- They are those of a worker's report of the same shares, where the first record stands at number 0 and
-- each later one at the whole second of its time, or right after the record before it if that is later;
-- these numbers rise. So of several records in one second each has a row of its own.
pub report_share_lem :
    {W : Type 0} ⦃d : Double W⦄ (u : User W) (t : W) (v : List W) (ps : List (W × List W))
    → u.records ≡ records_of ((t, v) ∷ ps)
    → IsRising ((pos 0, v) ∷ placed (pos 0) ps)
      × (report_share u ≡ ok (numbered (pos 0) (report_rows ((pos 0, v) ∷ placed (pos 0) ps))))
unfolding report_share
report_share_lem u t v ps e =
    (placed-IsRising (pos 0) v ps, ap (λ l. share_rows (pos 0) l) e ∙ share_rows_lem (pos 0) t v ps)

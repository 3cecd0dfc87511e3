-- ===== src/RecordMap/Rows.antt =====
-- src/worker/worker_abstract.h and src/play_back/player.h: the rows that ReportUtilization writes.
use h_axe_simulation.Prelude.{
  ℕ, zero, suc, ◌+◌, ◌-◌, ◌<◌, ◌≤◌, ◌≡◌, refl, sym, ap, ◌∙◌, true, false, inl, inr, List, [], ◌∷◌,
  ◌++◌, All, Bool-cases, arith, length, get_elem?, some, none, Option, replicate, length-replicate,
  length-append, get_elem?-append, if◌then◌else◌, get_elem?-replicate, ltb,
}
use h_axe_simulation.Prelude.Int.{ℤ, pos, pos_part, ltb_ℤ, ◌+ℤ◌, ◌-ℤ◌}
use h_axe_simulation.RecordMap.{RecordMap, fill_gap, report_rows}

plus_plus : (t : ℤ) (g k : ℕ) → (t +ℤ pos g) +ℤ pos k ≡ t +ℤ pos (g + k)
unfolding ◌+ℤ◌
plus_plus t g k = ground arith

plus_ltb : (t : ℤ) (i g : ℕ) → ltb_ℤ (t +ℤ pos i) (t +ℤ pos g) ≡ ltb i g
unfolding ◌+ℤ◌
plus_ltb t i g = ground arith

plus_not_before : (t : ℤ) (i : ℕ) → ltb_ℤ (t +ℤ pos i) t ≡ false
unfolding ◌+ℤ◌
plus_not_before t i = ground arith

module _ {V : Type 0} where
  -- The times rise.
  abbrev pub IsRising : RecordMap V → Type 0
  IsRising [] = Unit
  IsRising ((s, r) ∷ m) = All (λ (e : ℤ × V). ltb_ℤ s (e.0) ≡ true) m × IsRising m

  abbrev or_earlier : V → Option V → V
  or_earlier r none = r
  or_earlier r (some q) = q

  -- The record in force at a time: that of the last entry which is not later.
  pub latest : ℤ → RecordMap V → Option V
  latest t [] = none
  latest t ((s, r) ∷ m) = if ltb_ℤ t s then none else some (or_earlier r (latest t m))

  pub last_time : ℤ → RecordMap V → ℤ
  last_time t [] = t
  last_time t ((s, r) ∷ m) = last_time s m

  fill_gap_lem :
      (n g : ℕ) (t next : ℤ) (r : V)
      → g ≤ n
      → next ≡ t +ℤ pos g
      → fill_gap n t next r ≡ replicate g r
  unfolding fill_gap ◌+ℤ◌
  fill_gap_lem zero zero t next r b e = refl
  fill_gap_lem zero (suc g) t next r b e = absurd (omega arith)
  fill_gap_lem (suc n) zero t next r b e = let h : ltb_ℤ t next ≡ false = ground arith in rw h refl
  fill_gap_lem (suc n) (suc g) t next r b e =
      let h : ltb_ℤ t next ≡ true = ground arith in
      let more = fill_gap_lem n g (t +ℤ pos 1) next r (omega arith) (ground arith) in
      rw (h, more) refl

  -- The rows up to the next entry are the record again.
  pub rows_step :
      (t next : ℤ) (r q : V) (m : RecordMap V)
      → ltb_ℤ t next ≡ true
      → (g : ℕ) × (next ≡ t +ℤ pos (suc g))
        × (report_rows ((t, r) ∷ (next, q) ∷ m)
            ≡ replicate (suc g) r ++ report_rows ((next, q) ∷ m))
  unfolding report_rows ◌+ℤ◌ ◌-ℤ◌
  rows_step t next r q m h =
      let g = pos_part (next -ℤ t) - 1 in
      let e : next ≡ t +ℤ pos (suc g) = ground arith in
      let same =
        fill_gap_lem (pos_part (next -ℤ t)) g (t +ℤ pos 1) next r (omega arith) (ground arith) in
      (g, e, ap (λ rows. r ∷ (rows ++ report_rows ((next, q) ∷ m))) same)

  latest_before :
      (t : ℤ) (r : V) (m : RecordMap V) (s : ℤ)
      → IsRising ((t, r) ∷ m)
      → ltb_ℤ s t ≡ false
      → All (λ (e : ℤ × V). ltb_ℤ s (e.0) ≡ true) m
      → latest s ((t, r) ∷ m) ≡ some r
  unfolding latest
  latest_before t r [] s h a b = rw a refl
  latest_before t r ((u, q) ∷ m) s h a (b, bs) = rw (a, b) refl

  latest_after :
      (t next s : ℤ) (r q : V) (m : RecordMap V)
      → ltb_ℤ s t ≡ false
      → ltb_ℤ s next ≡ false
      → latest s ((t, r) ∷ (next, q) ∷ m) ≡ latest s ((next, q) ∷ m)
  unfolding latest
  latest_after t next s r q m a b = rw (a, b) refl

  pub later_All :
      (s t : ℤ) (m : RecordMap V)
      → ltb_ℤ s t ≡ true
      → All (λ (e : ℤ × V). ltb_ℤ t (e.0) ≡ true) m
      → All (λ (e : ℤ × V). ltb_ℤ s (e.0) ≡ true) m
  later_All s t [] h hs = tt
  later_All s t ((u, q) ∷ m) h (b, bs) = (ground arith, later_All s t m h bs)

  rows-length :
      (t : ℤ) (r : V) (m : RecordMap V)
      → IsRising ((t, r) ∷ m)
      → t +ℤ pos (length (report_rows ((t, r) ∷ m))) ≡ last_time t m +ℤ pos 1
  unfolding last_time report_rows
  rows-length t r [] h = refl
  rows-length t r ((next, q) ∷ m) ((b, bs), (hs, rise)) =
      let (g, e, rows) = rows_step t next r q m b in
      let rest = report_rows ((next, q) ∷ m) in
      let size = length-replicate (suc g) r in
      let sum = length-append (replicate (suc g) r) rest in
      let total : length (replicate (suc g) r ++ rest) ≡ suc g + length rest = omega arith in
      ap (λ l. t +ℤ pos (length l)) rows
      ∙ ap (λ n. t +ℤ pos n) total
      ∙ sym (plus_plus t (suc g) (length rest))
      ∙ ap (λ s. s +ℤ pos (length rest)) (sym e)
      ∙ rows-length next q m (hs, rise)

  rows-get :
      (t : ℤ) (r : V) (m : RecordMap V) (i : ℕ)
      → IsRising ((t, r) ∷ m)
      → i < length (report_rows ((t, r) ∷ m))
      → get_elem? (report_rows ((t, r) ∷ m)) i ≡ latest (t +ℤ pos i) ((t, r) ∷ m)
  unfolding report_rows
  rows-get t r [] zero h b = sym (latest_before t r [] (t +ℤ pos 0) h (plus_not_before t 0) tt)
  rows-get t r [] (suc i) h b = absurd (omega arith)
  rows-get t r ((next, q) ∷ m) i ((b, bs), (hs, rise)) bound =
      let (g, e, rows) = rows_step t next r q m b in
      let rest = report_rows ((next, q) ∷ m) in
      let size = length-replicate (suc g) r in
      let sum = length-append (replicate (suc g) r) rest in
      let total = ap (λ (l : List V). length l) rows ∙ sum in
      let order = ap (λ s. ltb_ℤ (t +ℤ pos i) s) e ∙ plus_ltb t i (suc g) in
      let after = plus_not_before t i in
      ap (λ l. get_elem? l i) rows
      ∙ get_elem?-append (replicate (suc g) r) rest i
      ∙ elim (Bool-cases (ltb i (suc g))) [
        | inl c ↦
            let before : ltb_ℤ (t +ℤ pos i) next ≡ true = order ∙ c in
            rw (size, c)
              (get_elem?-replicate (suc g) i r (ground arith)
                ∙ sym (
                    latest_before t r ((next, q) ∷ m) (t +ℤ pos i) ((b, bs), (hs, rise)) after
                      (before, later_All (t +ℤ pos i) next m before hs)))
        | inr c ↦
            let k = i - suc g in
            let there : suc g + k ≡ i = ground arith in
            let same : next +ℤ pos k ≡ t +ℤ pos i =
              ap (λ s. s +ℤ pos k) e ∙ plus_plus t (suc g) k ∙ ap (λ n. t +ℤ pos n) there in
            let short : k < length rest = omega arith in
            rw (size, c)
              (rows-get next q m k (hs, rise) short
                ∙ ap (λ s. latest s ((next, q) ∷ m)) same
                ∙ sym (latest_after t next (t +ℤ pos i) r q m after (order ∙ c)))
      ]

-- The report of a worker has a row for each second from its first entry to its last, and the row of a
-- second holds the record in force then, that of the last entry which is not later; the times of the
-- entries must rise, as those of a map do.
pub report_rows_lem :
    {V : Type 0} (t : ℤ) (r : V) (m : RecordMap V) (i : ℕ)
    → IsRising ((t, r) ∷ m)
    → i < length (report_rows ((t, r) ∷ m))
    → (t +ℤ pos (length (report_rows ((t, r) ∷ m))) ≡ last_time t m +ℤ pos 1)
      × (get_elem? (report_rows ((t, r) ∷ m)) i ≡ latest (t +ℤ pos i) ((t, r) ∷ m))
report_rows_lem t r m i h b = (rows-length t r m h, rows-get t r m i h b)

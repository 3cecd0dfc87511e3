-- ===== src/RecordMap/Entries.antt =====
-- src/worker/worker_abstract.h and src/play_back/player.h: `insert` of a map.
use h_axe_simulation.Prelude.{
  ◌≡◌, refl, true, false, inl, inr, [], ◌∷◌, All, Bool-cases, arith, Option, some, none,
  if◌then◌else◌,
}
use h_axe_simulation.Prelude.Int.{ℤ, ltb_ℤ, eqb_ℤ}
use h_axe_simulation.RecordMap.{RecordMap, insert_entry}
use h_axe_simulation.RecordMap.Rows.{IsRising, later_All}

module _ {V : Type 0} where
  -- `find` of a map
  unfoldable pub entry : ℤ → RecordMap V → Option V
  entry t [] = none
  entry t ((s, r) ∷ m) = if eqb_ℤ t s then some r else entry t m

  abbrev pub kept : Option V → V → Option V
  kept none r = some r
  kept (some q) r = some q

  insert-After :
      (s t : ℤ) (r : V) (m : RecordMap V)
      → ltb_ℤ s t ≡ true
      → All (λ (e : ℤ × V). ltb_ℤ s (e.0) ≡ true) m
      → All (λ (e : ℤ × V). ltb_ℤ s (e.0) ≡ true) (insert_entry t r m)
  unfolding insert_entry
  insert-After s t r [] h hs = (h, tt)
  insert-After s t r ((u, q) ∷ m) h (b, bs) = elim (Bool-cases (ltb_ℤ t u)) [
    | inl a ↦ rw a (h, (b, bs))
    | inr a ↦ elim (Bool-cases (ltb_ℤ u t)) [
      | inl c ↦ rw (a, c) (b, insert-After s t r m h bs)
      | inr c ↦ rw (a, c) (b, bs)
    ]
  ]

  pub insert-IsRising :
      (t : ℤ) (r : V) (m : RecordMap V) → IsRising m → IsRising (insert_entry t r m)
  unfolding insert_entry
  insert-IsRising t r [] h = (tt, tt)
  insert-IsRising t r ((u, q) ∷ m) (h, hs) = elim (Bool-cases (ltb_ℤ t u)) [
    | inl a ↦ rw a ((a, later_All t u m a h), (h, hs))
    | inr a ↦ elim (Bool-cases (ltb_ℤ u t)) [
      | inl c ↦ rw (a, c) (insert-After u t r m c h, insert-IsRising t r m hs)
      | inr c ↦ rw (a, c) (h, hs)
    ]
  ]

  entry-After :
      (t : ℤ) (m : RecordMap V) → All (λ (e : ℤ × V). ltb_ℤ t (e.0) ≡ true) m → entry t m ≡ none
  unfolding entry
  entry-After t [] h = refl
  entry-After t ((u, q) ∷ m) (h, hs) =
      let apart : eqb_ℤ t u ≡ false = ground arith in rw apart (entry-After t m hs)

  pub entry-insert :
      (t s : ℤ) (r : V) (m : RecordMap V)
      → IsRising m
      → entry s (insert_entry t r m) ≡ (if eqb_ℤ s t then kept (entry t m) r else entry s m)
  unfolding insert_entry entry
  entry-insert t s r [] h = refl
  entry-insert t s r ((u, q) ∷ m) (h, hs) =
      let rest = entry-insert t s r m hs in
      elim (Bool-cases (ltb_ℤ t u)) [
        | inl a ↦ let gone = entry-After t m (later_All t u m a h) in ground arith
        | inr a ↦ ground arith
      ]

-- A record is put down in a map whose times rise, which they do after it: at its time, unless there is
-- an entry at that time, which stays. The entries at other times stay.
pub insert_entry_lem :
    {V : Type 0} (t s : ℤ) (r : V) (m : RecordMap V)
    → IsRising m
    → IsRising (insert_entry t r m)
      × (entry s (insert_entry t r m) ≡ (if eqb_ℤ s t then kept (entry t m) r else entry s m))
insert_entry_lem t s r m h = (insert-IsRising t r m h, entry-insert t s r m h)

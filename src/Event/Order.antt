-- ===== src/Event/Order.antt =====
-- src/event/event.h: when `operator<` orders events, and when it does not.
use h_axe_simulation.Prelude.{ℕ, ◌≡◌, true, false, arith, ltb, ◌==◌, not, if◌then◌else◌, ◌<◌, Bool}
use h_axe_simulation.Prelude.Int.{ℤ, ltb_ℤ}
use h_axe_simulation.Number.{Double, lt, ◌⊖◌}
use h_axe_simulation.Event.{Event, event_lt, type_index}

-- What `std::priority_queue` asks of the order, for the events that `P` holds of.
pub record IsWeakOrder {W : Type 0} ⦃d : Double W⦄ (P : Event W → Type 0) : Type 0 where
  pub asym : (a b : Event W) → P a → P b → event_lt a b ≡ true → event_lt b a ≡ false
  pub weak :
      (a b c : Event W)
      → P a
      → P b
      → P c
      → event_lt a b ≡ false
      → event_lt b c ≡ false
      → event_lt a c ≡ false

module _ {W : Type 0} ⦃d : Double W⦄ where
  -- Two times count as one.
  abbrev pub SameTime : W → W → Type 0
  SameTime s t = lt d.millionth (d.fabs (s ⊖ t)) ≡ false

  abbrev pub Apart : W → W → Type 0
  Apart s t = lt d.millionth (d.fabs (s ⊖ t)) ≡ true

  -- The order is not transitive, nor free of cycles: of three events a step of at most the tolerance
  -- apart, whose first and last are further apart, with types that fall, each comes before another.
  pub event_lt-cycle :
      (a b c : Event W)
      → SameTime b.time a.time
      → SameTime c.time b.time
      → Apart a.time c.time
      → lt a.time c.time ≡ true
      → type_index b.event_type < type_index a.event_type
      → type_index c.event_type < type_index b.event_type
      → (event_lt b a ≡ true) × (event_lt c b ≡ true) × (event_lt a c ≡ true)
  unfolding event_lt
  event_lt-cycle a b c p q r s t u = ground arith

-- The order that `operator<` is meant to be: time, then type, then priority.
abbrev pub lex_lt : (m n s t : ℕ) → ℤ → ℤ → Bool
lex_lt m n s t p q = if m == n then (if s == t then ltb_ℤ p q else ltb s t) else ltb m n

module _ {W : Type 0} ⦃d : Double W⦄ where
  -- Times on ticks that are further apart than the tolerance.
  pub record IsTicks (tick : ℕ → W) : Type 0 where
    pub lt-tick : (m n : ℕ) → lt (tick m) (tick n) ≡ ltb m n
    pub apart-tick : (m n : ℕ) → lt d.millionth (d.fabs (tick m ⊖ tick n)) ≡ not (m == n)

  module _ {tick : ℕ → W} (ticks : IsTicks tick) where
    -- Between events at ticks that are further apart than the tolerance `operator<` is the
    -- lexicographic order of tick, type and priority.
    pub event_lt-eq-lex :
        (a b : Event W) (m n : ℕ)
        → a.time ≡ tick m
        → b.time ≡ tick n
        → event_lt a b
          ≡ lex_lt m n (type_index a.event_type) (type_index b.event_type) a.priority b.priority
    unfolding event_lt
    event_lt-eq-lex a b m n p q = rw (p, q, ticks.lt-tick, ticks.apart-tick) (ground arith)

    -- An event on a tick.
    abbrev pub OnTick : Event W → Type 0
    OnTick e = (m : ℕ) × (e.time ≡ tick m)

    -- On events at ticks that are further apart than the tolerance `operator<` is a strict weak order: of
    -- two events at most one comes before the other, and if one does not come before a second, nor the
    -- second before a third, the first does not come before the third.
    pub event_lt-IsWeakOrder : IsWeakOrder OnTick
    event_lt-IsWeakOrder = record {
      asym = λ a b (m, p) (n, q) h.
          rw (event_lt-eq-lex b a n m q p) (ground (arith, rw (event_lt-eq-lex a b m n p q) at h));
      weak = λ a b c (m, p) (n, q) (k, r) h j. rw (event_lt-eq-lex a c m k p r) (
          ground
            (arith, rw (event_lt-eq-lex a b m n p q) at h, rw (event_lt-eq-lex b c n k q r) at j));
    }

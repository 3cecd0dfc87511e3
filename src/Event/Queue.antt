-- ===== src/Event/Queue.antt =====
-- src/event_queue.h: `Top` and `Pop` against their contract.
use mathlib.Core.Path.{subst}
use mathlib.Core.List.{Perm}
use mathlib.Core.List.Perm
use h_axe_simulation.Prelude.{
  ◌≡◌, refl, sym, true, false, inl, inr, List, [], ◌∷◌, some, Bool-cases, All,
}
use h_axe_simulation.Number.{Double}
use h_axe_simulation.Event.{Event, event_lt, best, top_pop}
use h_axe_simulation.Event.Order.{IsWeakOrder}

module _ {W : Type 0} ⦃d : Double W⦄ where
  best-perm : (e : Event W) (es : List (Event W)) → Perm (e ∷ es) ((best e es).0 ∷ (best e es).1)
  unfolding best
  best-perm e [] = Perm.rfl
  best-perm e (x ∷ xs) = elim (Bool-cases (event_lt x e)) [
    | inl h ↦ rw h (Perm.trans (Perm.cons e (best-perm x xs)) (Perm.swap _ _ _))
    | inr h ↦
        rw h (
          Perm.trans (Perm.swap _ _ _)
            (Perm.trans (Perm.cons x (best-perm e xs)) (Perm.swap _ _ _)))
  ]

  abbrev IsLeast : (Event W → Type 0) → Event W → Event W × List (Event W) → Type 0
  IsLeast P e r = P r.0 × (event_lt e r.0 ≡ false) × All (λ x. event_lt x r.0 ≡ false) r.1

  best_earlier :
      (e x : Event W) (xs : List (Event W))
      → event_lt x e ≡ true
      → best e (x ∷ xs) ≡ ((best x xs).0, e ∷ (best x xs).1)
  unfolding best
  best_earlier e x xs h = rw h

  best_later :
      (e x : Event W) (xs : List (Event W))
      → event_lt x e ≡ false
      → best e (x ∷ xs) ≡ ((best e xs).0, x ∷ (best e xs).1)
  unfolding best
  best_later e x xs h = rw h

  module _ {P : Event W → Type 0} (order : IsWeakOrder P) where
    irrefl : (a : Event W) → P a → event_lt a a ≡ false
    irrefl a p = elim (Bool-cases (event_lt a a)) [ inl h ↦ order.asym a a p p h | inr h ↦ h ]

    -- No event of the queue comes before the one that is chosen.
    best-le : (e : Event W) (es : List (Event W)) → P e → All P es → IsLeast P e (best e es)
    unfolding best
    best-le e [] p ps = (p, irrefl e p, tt)
    best-le e (x ∷ xs) p (px, ps) = elim (Bool-cases (event_lt x e)) [
      | inl h ↦
          let (pt, first, rest) = best-le x xs px ps in
          let later = order.weak e x _ p px pt (order.asym x e px p h) first in
          subst (IsLeast P e) (sym (best_earlier e x xs h)) (pt, later, (later, rest))
      | inr h ↦
          let (pt, first, rest) = best-le e xs p ps in
          subst (IsLeast P e) (sym (best_later e x xs h))
            (pt, first, (order.weak x e _ px p pt h first, rest))
    ]

-- Taking the top of a queue that is not empty succeeds and loses no event: the top and the rest
-- are the queue, and no event of the rest comes before the top, for events that `event_lt` orders
-- weakly.
pub top_pop_lem :
    {W : Type 0} ⦃d : Double W⦄ {P : Event W → Type 0} (order : IsWeakOrder P) (e : Event W)
    (es : List (Event W))
    → All P (e ∷ es)
    → (top : Event W) × (rest : List (Event W)) × (top_pop (e ∷ es) ≡ some (top, rest))
      × Perm (e ∷ es) (top ∷ rest)
      × All (λ x. event_lt x top ≡ false) rest
unfolding top_pop
top_pop_lem order e es (p, ps) =
    ((best e es).0, (best e es).1, refl, best-perm e es, (best-le order e es p ps).2)

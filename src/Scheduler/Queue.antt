-- ===== src/Scheduler/Queue.antt =====
-- src/scheduler/simple_scheduler_impl.h: the queue of requests.
use h_axe_simulation.Prelude.{
  ◌≡◌, refl, ap, true, false, inl, inr, ◌⊎◌, [], ◌∷◌, ◌++◌, All, Bool-cases,
}
use h_axe_simulation.Number.{Double, lt}
use h_axe_simulation.Resource.{ResourceRequest}
use h_axe_simulation.Placement.{RequestQueue}
use h_axe_simulation.Placement.Tetris.{IsOrder}
use h_axe_simulation.Scheduler.{insert_request}

module _ {W : Type 0} ⦃d : Double W⦄ where
  -- No entry has a time below that of one before it.
  abbrev pub IsSorted : RequestQueue W → Type 0
  IsSorted [] = Unit
  IsSorted ((u, q) ∷ m) = All (λ e. lt (e.0) u ≡ false) m × IsSorted m

  insert-All :
      (P : W × ResourceRequest W → Type 0) (t : W) (req : ResourceRequest W) (m : RequestQueue W)
      → P (t, req)
      → All P m
      → All P (insert_request (t, req) m)
  unfolding insert_request
  insert-All P t req [] p ps = (p, tt)
  insert-All P t req ((u, q) ∷ m) p (pu, ps) = elim (Bool-cases (lt t u)) [
    | inl h ↦ rw h (p, (pu, ps))
    | inr h ↦ rw h (pu, insert-All P t req m p ps)
  ]

  module _ (order : IsOrder W) where
    later :
        (t u : W) (m : RequestQueue W)
        → lt t u ≡ true
        → All (λ e. lt (e.0) u ≡ false) m
        → All (λ e. lt (e.0) t ≡ false) m
    later t u [] h ps = tt
    later t u ((v, q) ∷ m) h (p, ps) = (go (Bool-cases (lt v t)), later t u m h ps)
      where
        go : (lt v t ≡ true) ⊎ (lt v t ≡ false) → lt v t ≡ false
        go (inl e) = absurd (let below = order.transitive v t u e h in cc)
        go (inr e) = e

    insert-IsSorted :
        (t : W) (req : ResourceRequest W) (m : RequestQueue W)
        → IsSorted m
        → IsSorted (insert_request (t, req) m)
    unfolding insert_request
    insert-IsSorted t req [] s = (tt, tt)
    insert-IsSorted t req ((u, q) ∷ m) (s, ss) = elim (Bool-cases (lt t u)) [
      | inl h ↦ rw h ((go (Bool-cases (lt u t)) h, later t u m h s), (s, ss))
      | inr h ↦ rw h (insert-All (λ e. lt (e.0) u ≡ false) t req m h s, insert-IsSorted t req m ss)
    ]
      where
        go : (lt u t ≡ true) ⊎ (lt u t ≡ false) → lt t u ≡ true → lt u t ≡ false
        go (inl e) h =
            absurd (let both = order.transitive u t u e h in let none = order.irreflexive u in cc)
        go (inr e) h = e

  -- The first entry, if there is one, is at a time above `t`.
  abbrev pub StartsAfter : W → RequestQueue W → Type 0
  StartsAfter t [] = Unit
  StartsAfter t ((u, q) ∷ m) = lt t u ≡ true

  insert_split :
      (t : W) (req : ResourceRequest W) (m : RequestQueue W)
      → (before : RequestQueue W) × (after : RequestQueue W) × (m ≡ before ++ after)
        × (insert_request (t, req) m ≡ before ++ (t, req) ∷ after)
        × All (λ (e : W × ResourceRequest W). lt t (e.0) ≡ false) before
        × StartsAfter t after
  unfolding insert_request
  insert_split t req [] = ([], [], refl, refl, tt, tt)
  insert_split t req ((u, q) ∷ m) = elim (Bool-cases (lt t u)) [
    | inl h ↦ ([], (u, q) ∷ m, refl, rw h refl, tt, h)
    | inr h ↦
        let (before, after, e, f, p, r) = insert_split t req m in
        ((u, q) ∷ before, after, ap (λ l. (u, q) ∷ l) e, rw h (ap (λ l. (u, q) ∷ l) f), (h, p), r)
  ]

-- A new request goes into a sorted queue behind every request that is not later, those of the same
-- time among them, and before the next later one. The others stay as they are, and the queue stays
-- sorted. The order on times must be irreflexive and transitive.
pub insert_request_lem :
    {W : Type 0} ⦃d : Double W⦄ (order : IsOrder W) (t : W) (req : ResourceRequest W)
    (m : RequestQueue W)
    → IsSorted m
    → IsSorted (insert_request (t, req) m)
      × ((before : RequestQueue W) × (after : RequestQueue W) × (m ≡ before ++ after)
          × (insert_request (t, req) m ≡ before ++ (t, req) ∷ after)
          × All (λ (e : W × ResourceRequest W). lt t (e.0) ≡ false) before
          × StartsAfter t after)
insert_request_lem order t req m s = (insert-IsSorted order t req m s, insert_split t req m)

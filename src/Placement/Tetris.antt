-- ===== src/Placement/Tetris.antt =====
-- src/algorithm/task_placement.cc: which worker `TETRIS` chooses.
use mathlib.Core.Path.{subst}
use h_axe_simulation.Prelude.{
  ℕ, zero, suc, ◌+◌, ◌≡◌, refl, sym, ap, ◌∙◌, true, false, inl, inr, ◌⊎◌, List, [], ◌∷◌, ok, arith,
  Bool-cases, set, get_elem?, some,
}
use h_axe_simulation.Prelude.Int.{ℤ, pos, negsuc}
use h_axe_simulation.Number.{Double, lt, zero_double}
use h_axe_simulation.Resource.{ResourceRequest, add, dot_product}
use h_axe_simulation.Worker.State.{Worker}
use h_axe_simulation.Worker.Machine.{try_to_reserve, available_resource}
use h_axe_simulation.Worker.Machine.Reserve.{reserve_parts}
use h_axe_simulation.Placement.{RequestQueue, product_of, tetris_scan, tetris_reserve, tetris}

-- `<` on the products, which no value that is not a number spoils.
pub record IsOrder (W : Type 0) ⦃d : Double W⦄ : Type 0 where
  pub irreflexive : (x : W) → lt x x ≡ false
  pub transitive : (x y z : W) → lt x y ≡ true → lt y z ≡ true → lt x z ≡ true

module _ {W : Type 0} ⦃d : Double W⦄ (req : ResourceRequest W) where
  abbrev pub score : Worker W → W
  score w = dot_product (available_resource w) req.resource

  -- No worker on which the request fits scores more than `x`.
  abbrev pub IsUnbeaten : W → List (Worker W) → Type 0
  IsUnbeaten x ws =
      (j : ℕ) (v : Worker W)
      → get_elem? ws j ≡ some v
      → try_to_reserve req.resource v ≡ true
      → lt x (score v) ≡ false

  -- Worker `k` is one on which the request fits; its score is above `x` and unbeaten.
  abbrev pub IsBest : W → List (Worker W) → ℕ → Worker W → Type 0
  IsBest x ws k w =
      (get_elem? ws k ≡ some w)
      × (try_to_reserve req.resource w ≡ true)
      × (lt x (score w) ≡ true)
      × IsUnbeaten (score w) ws

  abbrev Scanned : List (Worker W) → ℕ → ℤ × W → ℤ × W → Type 0
  Scanned ws i best r =
      ((r ≡ best) × IsUnbeaten best.1 ws)
      ⊎ ((k : ℕ) × (w : Worker W) × (r ≡ (pos (k + i), score w)) × IsBest best.1 ws k w)

  IsUnbeaten-cons :
      (x : W) (w : Worker W) (ws : List (Worker W))
      → (try_to_reserve req.resource w ≡ true → lt x (score w) ≡ false)
      → IsUnbeaten x ws
      → IsUnbeaten x (w ∷ ws)
  IsUnbeaten-cons x w ws h hs zero v at_v fit =
      let same : w ≡ v = cc in
      subst (λ u. lt x (score u) ≡ false) same
        (h (subst (λ u. try_to_reserve req.resource u ≡ true) (sym same) fit))
  IsUnbeaten-cons x w ws h hs (suc j) v at_v fit = hs j v at_v fit

  -- The scan goes on with one of two best values; the worker before it beats neither the one it goes
  -- on with nor what is found.
  module _ (order : IsOrder W) where
    beaten : (x y z : W) → lt x y ≡ false → lt x z ≡ true → lt z y ≡ false
    beaten x y z h k = elim (Bool-cases (lt z y)) [
      | inl e ↦ absurd (let t = order.transitive x z y k e in cc)
      | inr e ↦ e
    ]

    scan_skip :
        (w : Worker W) (ws : List (Worker W)) (i : ℕ) (best r : ℤ × W)
        → (try_to_reserve req.resource w ≡ true → lt best.1 (score w) ≡ false)
        → Scanned ws (suc i) best r
        → Scanned (w ∷ ws) i best r
    scan_skip w ws i best r less (inl (e, h)) = inl (e, IsUnbeaten-cons _ w ws less h)
    scan_skip w ws i best r less (inr (k, v, e, (there, fit, more, h))) = inr (
      suc k,
      v,
      e ∙ ap (λ n. (pos n, score v)) (omega arith),
      (there, fit, more, IsUnbeaten-cons _ w ws (λ f. beaten best.1 _ _ (less f) more) h),
    )

    scan_take :
        (w : Worker W) (ws : List (Worker W)) (i : ℕ) (best r : ℤ × W)
        → try_to_reserve req.resource w ≡ true
        → lt best.1 (score w) ≡ true
        → Scanned ws (suc i) (pos i, score w) r
        → Scanned (w ∷ ws) i best r
    scan_take w ws i best r fit more (inl (e, h)) = inr (
      0,
      w,
      e ∙ ap (λ n. (pos n, score w)) (omega arith),
      (refl, fit, more, IsUnbeaten-cons _ w ws (λ _. order.irreflexive _) h),
    )
    scan_take w ws i best r fit more (inr (k, v, e, (there, fit', more', h))) = inr (
      suc k,
      v,
      e ∙ ap (λ n. (pos n, score v)) (omega arith),
      (
        there,
        fit',
        order.transitive _ _ _ more more',
        IsUnbeaten-cons _ w ws (λ _. beaten _ _ _ (order.irreflexive (score w)) more') h,
      ),
    )

    scan_lem :
        (ws : List (Worker W)) (i : ℕ) (best : ℤ × W)
        → Scanned ws i best (tetris_scan req ws i best)
    unfolding tetris_scan product_of
    scan_lem [] i best = inl (refl, λ j v at_v fit. cc)
    scan_lem (w ∷ ws) i best = elim (Bool-cases (try_to_reserve req.resource w)) [
      | inl fit ↦ elim (Bool-cases (lt best.1 (score w))) [
        | inl more ↦
            rw (fit, more) (scan_take w ws i best _ fit more (scan_lem ws (suc i) (pos i, score w)))
        | inr less ↦ rw (fit, less) (scan_skip w ws i best _ (λ _. less) (scan_lem ws (suc i) best))
      ]
      | inr full ↦ rw full (scan_skip w ws i best _ (λ e. cc) (scan_lem ws (suc i) best))
    ]

    tetris_found :
        (t : W) (rest : RequestQueue W) (workers : List (Worker W)) (cursor : ℤ) (k : ℕ)
        (w : Worker W)
        → get_elem? workers k ≡ some w
        → try_to_reserve req.resource w ≡ true
        → tetris_reserve (pos k) (t, req) rest workers cursor
          ≡ ok (record {
            decisions = (k, req) ∷ [];
            queue = rest;
            workers = set workers k (record w { reservation = add w.reservation req.resource });
            cursor = cursor;
          })
    unfolding tetris_reserve
    tetris_found t rest workers cursor k w there fit =
        let (agree, granted, _) = reserve_parts req.resource w in
        rw (there, (granted (agree ∙ fit)).0) refl

unmoved :
    {W : Type 0} ⦃d : Double W⦄ (t : W) (req : ResourceRequest W) (rest : RequestQueue W)
    (workers : List (Worker W)) (cursor : ℤ)
    → tetris_reserve (negsuc 0) (t, req) rest workers cursor
      ≡ ok (record { decisions = []; queue = (t, req) ∷ rest; workers = workers; cursor = cursor })
unfolding tetris_reserve
unmoved t req rest workers cursor = refl

-- `TETRIS` on a queue that is not empty returns. If a worker on which the first request fits scores
-- above zero, the request goes to one whose score no other beats, and is reserved there; if not,
-- nothing changes. The order on products must be irreflexive and transitive.
pub tetris_lem :
    {W : Type 0} ⦃d : Double W⦄ (order : IsOrder W) (t : W) (req : ResourceRequest W)
    (rest : RequestQueue W) (workers : List (Worker W)) (cursor : ℤ)
    → ((k : ℕ) × (w : Worker W) × IsBest req zero_double workers k w
        × (tetris ((t, req) ∷ rest) workers cursor
            ≡ ok (record {
              decisions = (k, req) ∷ [];
              queue = rest;
              workers = set workers k (record w { reservation = add w.reservation req.resource });
              cursor = cursor;
            })))
      ⊎ (IsUnbeaten req zero_double workers
          × (tetris ((t, req) ∷ rest) workers cursor
              ≡ ok (record {
                decisions = [];
                queue = (t, req) ∷ rest;
                workers = workers;
                cursor = cursor;
              })))
unfolding tetris
tetris_lem order t req rest workers cursor =
    elim (scan_lem req order workers 0 (negsuc 0, zero_double)) [
      | inl (e, h) ↦ inr (h, rw e (unmoved t req rest workers cursor))
      | inr (k, w, e, best) ↦
          let at_start : k + 0 ≡ k = omega arith in
          inl (
            k,
            w,
            best,
            rw (e ∙ ap (λ n. (pos n, score req w)) at_start)
                (tetris_found req order t rest workers cursor k w best.0 best.1),
          )
    ]

-- ===== src/Placement/Returns.antt =====
-- src/algorithm/task_placement.cc: that a placement returns.
use mathlib.Core.Path.{subst}
use h_axe_simulation.Prelude.{List, ◌∷◌, ok, fail, refl, sym, ◌≡◌, Outcome, inl, inr}
use h_axe_simulation.Prelude.Int.{ℤ}
use h_axe_simulation.Number.{Double}
use h_axe_simulation.Resource.{ResourceRequest}
use h_axe_simulation.Worker.State.{Worker}
use h_axe_simulation.Placement.{
  PlacementName, RequestQueue, fifo_name, tetris_name, other_name, task_placement,
}
use h_axe_simulation.Placement.Fifo.{fifo_lem}
use h_axe_simulation.Placement.Tetris.{IsOrder, tetris_lem}

-- A call that does not abort.
abbrev pub Returns {ℓ} : {A : Type ℓ} → Outcome A → Type 0
Returns (ok a) = Unit
Returns (fail e) = ⊥

pub Returns-ok {ℓ} : {A : Type ℓ} (m : Outcome A) {a : A} → m ≡ ok a → Returns m
Returns-ok m e = subst Returns (sym e) tt

pub Returns-result {ℓ} : {A : Type ℓ} (m : Outcome A) → Returns m → (a : A) × (m ≡ ok a)
Returns-result (ok a) h = (a, refl)
Returns-result (fail e) h = absurd h

-- The book has the algorithm; `TETRIS` compares products by an order.
abbrev pub IsInBook : (W : Type 0) → ⦃d : Double W⦄ → PlacementName → Type 0
IsInBook W fifo_name = Unit
IsInBook W tetris_name = IsOrder W
IsInBook W other_name = ⊥

pub task_placement-Returns :
    {W : Type 0} ⦃d : Double W⦄ (name : PlacementName) (entry : W × ResourceRequest W)
    (rest : RequestQueue W) (w : Worker W) (ws : List (Worker W)) (cursor : ℤ)
    → IsInBook W name
    → Returns (task_placement name (entry ∷ rest) (w ∷ ws) cursor)
unfolding task_placement
task_placement-Returns fifo_name entry rest w ws cursor h =
    let deal = fifo_lem entry rest w ws cursor in Returns-ok _ deal.2
task_placement-Returns tetris_name (t, req) rest w ws cursor h =
    elim (tetris_lem h t req rest (w ∷ ws) cursor) [
      | inl (k, v, best, e) ↦ Returns-ok _ e
      | inr (unbeaten, e) ↦ Returns-ok _ e
    ]
task_placement-Returns other_name entry rest w ws cursor h = absurd h

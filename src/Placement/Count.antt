-- ===== src/Placement/Count.antt =====
-- src/algorithm/task_placement.cc: a placement leaves the number of workers as it is.
use h_axe_simulation.Prelude.{
  ℕ, List, [], ◌∷◌, ◌≡◌, refl, ◌∙◌, undefined, out_of_range, or_fail, Ensures, Ensures-bind,
  Ensures-ok, Ensures-if, get_elem?, set, length, length-set,
}
use h_axe_simulation.Prelude.Int.{ℤ, pos, negsuc}
use h_axe_simulation.Number.{Double}
use h_axe_simulation.Resource.{ResourceRequest}
use h_axe_simulation.Worker.State.{Worker}
use h_axe_simulation.Worker.Machine.{reserve}
use h_axe_simulation.Placement.{
  PlacementName, RequestQueue, Placed, fifo_name, tetris_name, other_name, fifo_loop, fifo,
  tetris_reserve, tetris, task_placement, next_worker, place_at,
}

module _ {W : Type 0} ⦃d : Double W⦄ where
  abbrev pub PlacedAmong : ℕ → Placed W → Type 0
  PlacedAmong n r = length r.workers ≡ n

  fifo_loop-PlacedAmong :
      (entry : W × ResourceRequest W) (rest : RequestQueue W) (i : ℕ) (ws : List (Worker W))
      → Ensures (PlacedAmong (length ws)) (fifo_loop entry rest i ws)
  unfolding fifo_loop place_at
  fifo_loop-PlacedAmong (t, req) [] i ws =
      Ensures-bind (PlacedAmong (length ws)) (or_fail (get_elem? ws i) out_of_range) _ (λ w e.
        Ensures-if (PlacedAmong (length ws)) (reserve req.resource w).1 _ _ (λ a. length-set ws i _)
          (λ a. refl))
  fifo_loop-PlacedAmong (t, req) (entry ∷ rest) i ws =
      Ensures-bind (PlacedAmong (length ws)) (or_fail (get_elem? ws i) out_of_range) _ (λ w e.
        let ws' = set ws i ((reserve req.resource w).0) in
        let more = fifo_loop-PlacedAmong entry rest (next_worker (pos i) (length ws)) ws' in
        Ensures-if (PlacedAmong (length ws)) (reserve req.resource w).1 _ _
          (λ a.
            Ensures-bind (PlacedAmong (length ws)) (fifo_loop entry rest _ _) _
              (λ r g. Ensures-ok (PlacedAmong (length ws')) _ more g ∙ length-set ws i _))
          (λ a. refl))

  tetris_reserve-PlacedAmong :
      (i : ℤ) (entry : W × ResourceRequest W) (rest : RequestQueue W) (ws : List (Worker W))
      (cursor : ℤ)
      → Ensures (PlacedAmong (length ws)) (tetris_reserve i entry rest ws cursor)
  unfolding tetris_reserve
  tetris_reserve-PlacedAmong (negsuc n) entry rest ws cursor = refl
  tetris_reserve-PlacedAmong (pos n) (t, req) rest ws cursor =
      Ensures-bind (PlacedAmong (length ws)) (or_fail (get_elem? ws n) undefined) _
        (λ w e. length-set ws n _)

  pub task_placement-PlacedAmong :
      (name : PlacementName) (queue : RequestQueue W) (ws : List (Worker W)) (cursor : ℤ)
      → Ensures (PlacedAmong (length ws)) (task_placement name queue ws cursor)
  unfolding task_placement fifo tetris
  task_placement-PlacedAmong fifo_name [] ws cursor = tt
  task_placement-PlacedAmong fifo_name (entry ∷ rest) [] cursor = tt
  task_placement-PlacedAmong fifo_name (entry ∷ rest) (w ∷ ws) cursor =
      fifo_loop-PlacedAmong entry rest _ (w ∷ ws)
  task_placement-PlacedAmong tetris_name [] ws cursor = tt
  task_placement-PlacedAmong tetris_name ((t, req) ∷ rest) ws cursor =
      tetris_reserve-PlacedAmong _ (t, req) rest ws cursor
  task_placement-PlacedAmong other_name queue ws cursor = tt

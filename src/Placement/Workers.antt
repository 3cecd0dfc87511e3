-- ===== src/Placement/Workers.antt =====
-- src/algorithm/task_placement.cc: what a placement does to the workers.
use h_axe_simulation.Prelude.{
  ℕ, List, [], ◌∷◌, undefined, out_of_range, or_fail, or_fail-eq-ok, Ensures, Ensures-bind,
  Ensures-ok, Ensures-if, All, All-set, All-get, get_elem?, set, length,
}
use h_axe_simulation.Prelude.Int.{ℤ, pos, negsuc}
use h_axe_simulation.Number.{Double}
use h_axe_simulation.Resource.{ResourceRequest}
use h_axe_simulation.Worker.State.{Worker}
use h_axe_simulation.Worker.Machine.{reserve}
use h_axe_simulation.Worker.Kept.{IsKept}
use h_axe_simulation.Placement.{
  PlacementName, RequestQueue, Placed, fifo_name, tetris_name, other_name, fifo_loop, fifo,
  tetris_reserve, tetris, task_placement, next_worker, place_at,
}

module _ {W : Type 0} ⦃d : Double W⦄ (P : Worker W → Type 0) (kept : IsKept P) where
  -- The workers that a placement leaves have the property.
  abbrev pub PlacedSound : Placed W → Type 0
  PlacedSound r = All P r.workers

  fifo_loop-PlacedSound :
      (entry : W × ResourceRequest W) (rest : RequestQueue W) (i : ℕ) (ws : List (Worker W))
      → All P ws
      → Ensures PlacedSound (fifo_loop entry rest i ws)
  unfolding fifo_loop place_at
  fifo_loop-PlacedSound (t, req) [] i ws h =
      Ensures-bind PlacedSound (or_fail (get_elem? ws i) out_of_range) _ (λ w e.
        let held = All-get P ws i h (or_fail-eq-ok (get_elem? ws i) out_of_range e) in
        let given = All-set P ws i _ (kept.reserving req.resource w held) h in
        Ensures-if PlacedSound (reserve req.resource w).1 _ _ (λ a. given) (λ a. h))
  fifo_loop-PlacedSound (t, req) (entry ∷ rest) i ws h =
      Ensures-bind PlacedSound (or_fail (get_elem? ws i) out_of_range) _ (λ w e.
        let held = All-get P ws i h (or_fail-eq-ok (get_elem? ws i) out_of_range e) in
        let given = All-set P ws i _ (kept.reserving req.resource w held) h in
        let more =
          fifo_loop-PlacedSound entry rest (next_worker (pos i) (length ws))
            (set ws i ((reserve req.resource w).0)) given in
        Ensures-if PlacedSound (reserve req.resource w).1 _ _
          (λ a.
            Ensures-bind PlacedSound (fifo_loop entry rest _ _) _
              (λ r g. Ensures-ok PlacedSound _ more g))
          (λ a. h))

  fifo-PlacedSound :
      (queue : RequestQueue W) (ws : List (Worker W)) (cursor : ℤ)
      → All P ws
      → Ensures PlacedSound (fifo queue ws cursor)
  unfolding fifo
  fifo-PlacedSound [] ws cursor h = tt
  fifo-PlacedSound (entry ∷ rest) [] cursor h = tt
  fifo-PlacedSound (entry ∷ rest) (w ∷ ws) cursor h = fifo_loop-PlacedSound entry rest _ (w ∷ ws) h

  tetris_reserve-PlacedSound :
      (i : ℤ) (entry : W × ResourceRequest W) (rest : RequestQueue W) (ws : List (Worker W))
      (cursor : ℤ)
      → All P ws
      → Ensures PlacedSound (tetris_reserve i entry rest ws cursor)
  unfolding tetris_reserve
  tetris_reserve-PlacedSound (negsuc n) entry rest ws cursor h = h
  tetris_reserve-PlacedSound (pos n) (t, req) rest ws cursor h =
      Ensures-bind PlacedSound (or_fail (get_elem? ws n) undefined) _ (λ w e.
        let held = All-get P ws n h (or_fail-eq-ok (get_elem? ws n) undefined e) in
        All-set P ws n _ (kept.reserving req.resource w held) h)

  tetris-PlacedSound :
      (queue : RequestQueue W) (ws : List (Worker W)) (cursor : ℤ)
      → All P ws
      → Ensures PlacedSound (tetris queue ws cursor)
  unfolding tetris
  tetris-PlacedSound [] ws cursor h = tt
  tetris-PlacedSound ((t, req) ∷ rest) ws cursor h =
      tetris_reserve-PlacedSound _ (t, req) rest ws cursor h

  pub task_placement-PlacedSound :
      (name : PlacementName) (queue : RequestQueue W) (ws : List (Worker W)) (cursor : ℤ)
      → All P ws
      → Ensures PlacedSound (task_placement name queue ws cursor)
  unfolding task_placement
  task_placement-PlacedSound fifo_name = fifo-PlacedSound
  task_placement-PlacedSound tetris_name = tetris-PlacedSound
  task_placement-PlacedSound other_name = λ queue ws cursor h. tt

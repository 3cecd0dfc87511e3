-- ===== src/Placement.antt =====
-- src/algorithm/task_placement.cc and algorithm_book.h: which worker a request goes to. The queue of
-- requests is a `std::multimap` by time, a list in the order of the keys.
pub mod Fifo
pub mod Tetris
pub mod Workers
pub mod Count
pub mod Returns
pub mod Tests
use h_axe_simulation.Prelude.{
  ℕ, zero, suc, ◌+◌, ◌-◌, ◌%◌, Bool, true, false, List, [], ◌∷◌, Outcome, ok, fail, ◌>>=◌, or_fail,
  out_of_range, undefined, no_handler, if◌then◌else◌, length, set, get_elem?,
}
use h_axe_simulation.Prelude.Int.{ℤ, pos, negsuc}
use h_axe_simulation.Number.{Double, lt, zero_double}
use h_axe_simulation.Resource.{ResourceRequest, dot_product}
use h_axe_simulation.Worker.State.{Worker}
use h_axe_simulation.Worker.Machine.{reserve, try_to_reserve, available_resource}

abbrev pub RequestQueue : Type 0 → Type 0
RequestQueue W = List (W × ResourceRequest W)

-- What a placement leaves: the decisions, the queue, the workers, and the static `worker_id`.
pub record Placed (W : Type 0) : Type 0 where
  pub decisions : List (ℕ × ResourceRequest W)
  pub queue : RequestQueue W
  pub workers : List (Worker W)
  pub cursor : ℤ

-- The names that the book of algorithms knows, and all others.
pub data PlacementName : Type 0 where
  fifo_name tetris_name other_name : PlacementName

-- `(worker_id + 1) % workers.size()`, where the sum, an `int`, becomes a number of 64 bits.
unfoldable pub next_worker : ℤ → ℕ → ℕ
next_worker (pos n) size = suc n % size
next_worker (negsuc zero) size = 0 % size
next_worker (negsuc (suc n)) size = (18_446_744_073_709_551_616 - suc n) % size

module _ {W : Type 0} ⦃d : Double W⦄ where
  pub place_at : ℕ → ResourceRequest W → Placed W → Placed W
  place_at worker_id req r = record r { decisions = (worker_id, req) ∷ r.decisions }

  -- The loop of `FIFO`, with the first entry of the queue apart and `worker_id` advanced.
  pub fifo_loop : W × ResourceRequest W → RequestQueue W → ℕ → List (Worker W) → Outcome (Placed W)
  unfolding place_at
  fifo_loop (t, req) [] worker_id workers = do
    w ← or_fail (get_elem? workers worker_id) out_of_range
    let (w', done) = reserve req.resource w
    if done
        then ok (record {
          decisions = (worker_id, req) ∷ [];
          queue = [];
          workers = set workers worker_id w';
          cursor = pos worker_id;
        })
        else ok (record {
          decisions = [];
          queue = (t, req) ∷ [];
          workers = workers;
          cursor = pos worker_id;
        })
  fifo_loop (t, req) (entry ∷ rest) worker_id workers = do
    w ← or_fail (get_elem? workers worker_id) out_of_range
    let (w', done) = reserve req.resource w
    let next =
        fifo_loop entry rest (next_worker (pos worker_id) (length workers))
          (set workers worker_id w')
    if done
        then (do r ← next; ok (place_at worker_id req r))
        else ok (record {
          decisions = [];
          queue = (t, req) ∷ entry ∷ rest;
          workers = workers;
          cursor = pos worker_id;
        })

  -- `FIFO`
  pub fifo : RequestQueue W → List (Worker W) → ℤ → Outcome (Placed W)
  unfolding fifo_loop
  fifo [] workers cursor = fail undefined
  fifo (entry ∷ rest) [] cursor = fail undefined
  fifo (entry ∷ rest) (w ∷ ws) cursor =
      fifo_loop entry rest (next_worker cursor (length (w ∷ ws))) (w ∷ ws)

  product_of : ResourceRequest W → Worker W → W
  product_of req w = dot_product (available_resource w) req.resource

  -- The loop of `TETRIS` over the workers from number `i` on.
  pub tetris_scan : ResourceRequest W → List (Worker W) → ℕ → ℤ × W → ℤ × W
  unfolding product_of
  tetris_scan req [] i best = best
  tetris_scan req (w ∷ ws) i (worker_id, max_product) = tetris_scan req ws (suc i) (
      if try_to_reserve req.resource w
      then (if lt max_product (product_of req w)
          then (pos i, product_of req w)
          else (worker_id, max_product))
      else (worker_id, max_product))

  tetris_reserve :
      ℤ → W × ResourceRequest W → RequestQueue W → List (Worker W) → ℤ → Outcome (Placed W)
  tetris_reserve (negsuc n) entry rest workers cursor =
      ok (record { decisions = []; queue = entry ∷ rest; workers = workers; cursor = cursor })
  tetris_reserve (pos worker_id) (t, req) rest workers cursor = do
    w ← or_fail (get_elem? workers worker_id) undefined
    ok (record {
      decisions = (worker_id, req) ∷ [];
      queue = rest;
      workers = set workers worker_id ((reserve req.resource w).0);
      cursor = cursor;
    })

  -- `TETRIS`
  pub tetris : RequestQueue W → List (Worker W) → ℤ → Outcome (Placed W)
  unfolding tetris_scan tetris_reserve
  tetris [] workers cursor = fail undefined
  tetris ((t, req) ∷ rest) workers cursor =
      let (worker_id, max_product) = tetris_scan req workers 0 (negsuc 0, zero_double) in
      tetris_reserve worker_id (t, req) rest workers cursor

  -- `AlgorithmBook::GetTaskPlacement` and the call: a name that the book lacks gives an empty function.
  unfoldable pub task_placement :
      PlacementName → RequestQueue W → List (Worker W) → ℤ → Outcome (Placed W)
  unfolding fifo tetris
  task_placement fifo_name = fifo
  task_placement tetris_name = tetris
  task_placement other_name = λ _ _ _. fail no_handler

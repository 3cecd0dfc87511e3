-- ===== src/Placement/Fifo.antt =====
-- src/algorithm/task_placement.cc: what `FIFO` decides.
use mathlib.Core.Path.{subst}
use h_axe_simulation.Prelude.{
  ℕ, zero, suc, ◌%◌, ◌<◌, ◌≡◌, refl, sym, ap, ◌∙◌, true, false, inl, inr, ◌⊎◌, List, [], ◌∷◌, ◌++◌,
  Outcome, ok, arith, Bool-cases, length, set, get_elem?, get_elem?_lt, length-set, some,
}
use h_axe_simulation.Prelude.Int.{ℤ, pos, negsuc}
use h_axe_simulation.Number.{Double}
use h_axe_simulation.Resource.{ResourceRequest, add}
use h_axe_simulation.Worker.State.{Worker}
use h_axe_simulation.Worker.Machine.{reserve, try_to_reserve}
use h_axe_simulation.Worker.Machine.Reserve.{reserve_parts}
use h_axe_simulation.Placement.{RequestQueue, Placed, next_worker, place_at, fifo_loop, fifo}

-- Requests dealt in turn to workers, from worker `i` of `n` on.
abbrev pub in_turn : {W : Type 0} → ℕ → ℕ → RequestQueue W → List (ℕ × ResourceRequest W)
in_turn i n [] = []
in_turn i n ((t, req) ∷ q) = (i, req) ∷ in_turn (suc i % n) n q

module _ {W : Type 0} ⦃d : Double W⦄ where
  -- The decisions can be granted one after the other, and they turn the first workers into the second.
  pub data Granted : List (ℕ × ResourceRequest W) → List (Worker W) → List (Worker W) → Type 0 where
    none_left : {ws : List (Worker W)} → Granted [] ws ws
    grant :
        {i : ℕ} {req : ResourceRequest W} {ds : List (ℕ × ResourceRequest W)}
        {ws vs : List (Worker W)} (w : Worker W)
        → get_elem? ws i ≡ some w
        → try_to_reserve req.resource w ≡ true
        → Granted ds (set ws i (record w { reservation = add w.reservation req.resource })) vs
        → Granted ((i, req) ∷ ds) ws vs

  -- The first request of the queue, if one is left, cannot be reserved on the worker of the cursor.
  abbrev pub IsStuck : Placed W → Type 0
  IsStuck r =
      (r.queue ≡ [])
      ⊎ ((t : W) × (req : ResourceRequest W) × (rest : RequestQueue W) × (i : ℕ) × (w : Worker W)
          × (r.queue ≡ (t, req) ∷ rest)
          × (r.cursor ≡ pos i)
          × (get_elem? r.workers i ≡ some w)
          × (try_to_reserve req.resource w ≡ false))

  -- What a run that starts with worker `i` gives.
  abbrev pub DealsInTurn : ℕ → RequestQueue W → List (Worker W) → Outcome (Placed W) → Type 0
  DealsInTurn i queue workers outcome =
      (r : Placed W) × (taken : RequestQueue W) × (outcome ≡ ok r)
      × (queue ≡ taken ++ r.queue)
      × (r.decisions ≡ in_turn i (length workers) taken)
      × Granted r.decisions workers r.workers
      × IsStuck r

  loop_lem :
      (t : W) (req : ResourceRequest W) (rest : RequestQueue W) (i : ℕ) (workers : List (Worker W))
      → i < length workers
      → DealsInTurn i ((t, req) ∷ rest) workers (fifo_loop (t, req) rest i workers)
  unfolding fifo_loop next_worker place_at
  loop_lem t req [] i workers h =
      let (w, there) = get_elem?_lt workers i h in
      let (agree, granted, _) = reserve_parts req.resource w in
      let dealt : Placed W = record {
        decisions = (i, req) ∷ [];
        queue = [];
        workers = set workers i ((reserve req.resource w).0);
        cursor = pos i;
      } in
      let kept : Placed W = record {
        decisions = [];
        queue = (t, req) ∷ [];
        workers = workers;
        cursor = pos i;
      } in
      elim (Bool-cases ((reserve req.resource w).1)) [
        | inl done ↦ (
          dealt,
          (t, req) ∷ [],
          rw (there, done) refl,
          refl,
          refl,
          grant w there (sym agree ∙ done) (rw (granted done).0 none_left),
          inl refl,
        )
        | inr full ↦ (
          kept,
          [],
          rw (there, full) refl,
          refl,
          refl,
          none_left,
          inr (t, req, [], i, w, refl, refl, there, sym agree ∙ full),
        )
      ]
  loop_lem t req ((u, next) ∷ rest) i workers h =
      let (w, there) = get_elem?_lt workers i h in
      let (agree, granted, _) = reserve_parts req.resource w in
      let kept : Placed W = record {
        decisions = [];
        queue = (t, req) ∷ (u, next) ∷ rest;
        workers = workers;
        cursor = pos i;
      } in
      elim (Bool-cases ((reserve req.resource w).1)) [
        | inl done ↦
            let ws = set workers i ((reserve req.resource w).0) in
            let same = length-set workers i ((reserve req.resource w).0) in
            let (r, taken, e, parts, turns, steps, stuck) =
              loop_lem u next rest (suc i % length workers) ws (omega (arith, same, h)) in
            (
              place_at i req r,
              (t, req) ∷ taken,
              rw (there, done, e) refl,
              ap (λ q. (t, req) ∷ q) parts,
              ap (λ q. (i, req) ∷ q)
                  (turns ∙ ap (λ n. in_turn (suc i % length workers) n taken) same),
              grant w there (sym agree ∙ done) (
                  subst (λ v. Granted r.decisions (set workers i v) r.workers) (granted done).0
                    steps),
              stuck,
            )
        | inr full ↦ (
          kept,
          [],
          rw (there, full) refl,
          refl,
          refl,
          none_left,
          inr (t, req, (u, next) ∷ rest, i, w, refl, refl, there, sym agree ∙ full),
        )
      ]

next_worker_lt : (cursor : ℤ) (n : ℕ) → next_worker cursor (suc n) < suc n
unfolding next_worker
next_worker_lt (pos c) n = omega arith
next_worker_lt (negsuc zero) n = omega arith
next_worker_lt (negsuc (suc c)) n = omega arith

-- `FIFO` on a queue and workers that are not empty returns. It takes requests from the front of the
-- queue and deals them in turn to the workers, from the one after the cursor on. Each is reserved as
-- it is dealt, so that the workers end with what was granted. It stops only when the queue is
-- empty or the first request left cannot be reserved on the worker whose turn it is.
pub fifo_lem :
    {W : Type 0} ⦃d : Double W⦄ (entry : W × ResourceRequest W) (rest : RequestQueue W)
    (w : Worker W) (ws : List (Worker W)) (cursor : ℤ)
    → DealsInTurn
        (next_worker cursor (suc (length ws)))
        (entry ∷ rest)
        (w ∷ ws)
        (fifo (entry ∷ rest) (w ∷ ws) cursor)
unfolding fifo
fifo_lem (t, req) rest w ws cursor =
    loop_lem t req rest (next_worker cursor (suc (length ws))) (w ∷ ws)
      (next_worker_lt cursor (length ws))

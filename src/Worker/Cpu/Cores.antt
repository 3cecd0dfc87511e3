-- ===== src/Worker/Cpu/Cores.antt =====
-- src/worker/worker_cpu.h: cores in use, tasks that wait, and events that are made.
pub mod Finish
use mathlib.Core.Path.{subst}
use h_axe_simulation.Prelude.{
  ℕ, suc, ◌+◌, ◌≤◌, ◌<◌, ◌≡◌, refl, sym, ap, ◌∙◌, true, false, inl, inr, ◌⊎◌, List, [], ◌∷◌, ok,
  arith, length, length-append, Ensures, Ensures-bind, Ensures-map, Ensures-ok,
}
use h_axe_simulation.Prelude.Int.{pos, ◌+ℤ◌}
use h_axe_simulation.Number.{Double, ◌⊕◌, ◌⊖◌, whole, one_double}
use h_axe_simulation.Job.{ShardTask}
use h_axe_simulation.Event.{Event}
use h_axe_simulation.Worker.State.{Worker, Shared, take_memory, release_memory}
use h_axe_simulation.Worker.Cpu.{
  core_available, increase_cpu_usage, decrease_cpu_usage, decrease_cpu_reservation, start_cpu_task,
  place_cpu_task, start_next_cpu_task, finish_cpu_task,
}

-- The whole values of an `int` are counted exactly.
pub record IsCounter (W : Type 0) ⦃d : Double W⦄ : Type 0 where
  pub up : (n : ℕ) → n < 2_147_483_647 → whole {W = W} (pos n) ⊕ one_double ≡ whole (pos (suc n))
  pub down : (n : ℕ) → n < 2_147_483_647 → whole {W = W} (pos (suc n)) ⊖ one_double ≡ whole (pos n)
  pub cast : (n : ℕ) → n ≤ 2_147_483_647 → d.truncate (whole (pos n)) ≡ pos n

module _ {W : Type 0} ⦃d : Double W⦄ where
  -- `used` cores of `cores` are in use, and a task waits only if all are.
  pub record IsServed (cores used : ℕ) (w : Worker W) : Type 0 where
    pub counted : w.usage.cpu_of ≡ whole (pos used)
    pub limit : d.truncate w.capacity.cpu_of ≡ pos cores
    pub representable : cores ≤ 2_147_483_647
    pub bounded : used ≤ cores
    pub busy : (w.cpu_queue ≡ []) ⊎ (used ≡ cores)

  -- The parts of a worker that memory does not touch.
  abbrev pub SameCores : Worker W → Worker W → Type 0
  SameCores w w' =
      (w'.usage.cpu_of ≡ w.usage.cpu_of) × (w'.capacity ≡ w.capacity) × (w'.cpu_queue ≡ w.cpu_queue)

  take_memory_cores :
      (x : W) (w : Worker W) {w' : Worker W} → take_memory x w ≡ ok w' → SameCores w w'
  unfolding take_memory
  take_memory_cores x w e = ground arith

  pub release_memory_cores :
      (x : W) (w : Worker W) {w' : Worker W} → release_memory x w ≡ ok w' → SameCores w w'
  unfolding release_memory
  release_memory_cores x w e = ground arith

  module _ (law : IsCounter W) where
    available_lem :
        (cores used : ℕ) (w : Worker W)
        → IsServed cores used w
        → ((core_available w ≡ true) × (used < cores))
          ⊎ ((core_available w ≡ false) × (used ≡ cores))
    unfolding core_available ◌+ℤ◌
    available_lem cores used w v =
        rw (v.counted, v.limit, law.cast used (omega (arith, v.bounded, v.representable)))
          (ground (arith, v.bounded))

    pub free_lem :
        (cores used : ℕ) (w : Worker W)
        → w.usage.cpu_of ≡ whole (pos used)
        → d.truncate w.capacity.cpu_of ≡ pos cores
        → cores ≤ 2_147_483_647
        → suc used ≡ cores
        → core_available w ≡ true
    unfolding core_available ◌+ℤ◌
    free_lem cores used w counted limit small all =
        rw (counted, limit, law.cast used (omega arith)) (ground arith)

    -- After a start one more core is in use, and there is one event.
    abbrev Started : ℕ → ℕ → List (ShardTask W) → Worker W × Shared W × List (Event W) → Type 0
    Started cores used queue r =
        (r.0.usage.cpu_of ≡ whole (pos (suc used)))
        × (d.truncate r.0.capacity.cpu_of ≡ pos cores)
        × (r.0.cpu_queue ≡ queue)
        × (length r.2 ≡ 1)

    pub start-Started :
        (cores used : ℕ) (time : W) (task : ShardTask W) (w : Worker W) (s : Shared W)
        → w.usage.cpu_of ≡ whole (pos used)
        → d.truncate w.capacity.cpu_of ≡ pos cores
        → used < 2_147_483_647
        → Ensures (Started cores used w.cpu_queue) (start_cpu_task time task w s)
    unfolding start_cpu_task increase_cpu_usage
    start-Started cores used time task w s counted limit small =
        Ensures-bind _ (take_memory task.memory_need (increase_cpu_usage one_double w)) _
          λ w2 taken.
            let (usage, capacity, queue) = take_memory_cores _ _ taken in
            (
              usage ∙ (ap (λ x. x ⊕ one_double) counted ∙ law.up used small),
              ap (λ p. d.truncate p.cpu_of) capacity ∙ limit,
              queue,
              refl,
            )

    -- What one operation does: `arrived` tasks come, `left` leave their cores.
    abbrev pub Balanced : ℕ → ℕ → ℕ → ℕ → ℕ → Worker W × Shared W × List (Event W) → Type 0
    Balanced cores used waiting arrived left r =
        (used' : ℕ) × IsServed cores used' r.0
        × (used' + length r.0.cpu_queue + left ≡ used + waiting + arrived)
        × (used' + left ≡ used + length r.2)

    place-Balanced :
        (cores used : ℕ) (time : W) (task : ShardTask W) (w : Worker W) (s : Shared W)
        (q : List (ShardTask W))
        → w.cpu_queue ≡ q
        → IsServed cores used w
        → Ensures (Balanced cores used (length q) 1 0) (place_cpu_task time task w s)
    unfolding place_cpu_task
    place-Balanced cores used time task w s [] e v = elim (available_lem cores used w v) [
      | inr (full, all) ↦
          rw (e, place_cpu_task, full)
            (
              used,
              record {
                counted = v.counted;
                limit = v.limit;
                representable = v.representable;
                bounded = v.bounded;
                busy = inr all;
              },
              omega arith,
              omega arith,
            )
      | inl (free, some_left) ↦
          rw (e, place_cpu_task, free)
            (Ensures-map (start_cpu_task time task w s)
              (start-Started cores used time task w s v.counted v.limit
                (omega (arith, v.representable)))
              λ r (counted, limit, queue, one). (
                suc used,
                record {
                  counted = counted;
                  limit = limit;
                  representable = v.representable;
                  bounded = some_left;
                  busy = inl (queue ∙ e);
                },
                rw (queue, e) (omega arith),
                rw one (omega arith),
              ))
    ]
    place-Balanced cores used time task w s (q ∷ qs) e v =
        rw (e, place_cpu_task)
          (
            used,
            record {
              counted = v.counted;
              limit = v.limit;
              representable = v.representable;
              bounded = v.bounded;
              busy = ground (arith, v.busy);
            },
            omega (arith, length-append qs (task ∷ [])),
            omega arith,
          )

-- A task that is placed either takes a free core or waits, and it waits only if all cores are in
-- use: the count of cores stays right and within the capacity, the tasks that run or wait are one
-- more, and there is an event exactly for each task that starts.
pub place_cpu_task_lem :
    {W : Type 0} ⦃d : Double W⦄ (law : IsCounter W) (cores used : ℕ) (time : W) (task : ShardTask W)
    (w : Worker W) (s : Shared W) {w' : Worker W} {s' : Shared W} {events : List (Event W)}
    → IsServed cores used w
    → place_cpu_task time task w s ≡ ok (w', s', events)
    → (used' : ℕ) × IsServed cores used' w'
      × (used' + length w'.cpu_queue + 0 ≡ used + length w.cpu_queue + 1)
      × (used' + 0 ≡ used + length events)
place_cpu_task_lem law cores used time task w s v e =
    Ensures-ok (Balanced law cores used (length w.cpu_queue) 1 0) _
      (place-Balanced law cores used time task w s w.cpu_queue refl v) e

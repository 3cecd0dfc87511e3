-- ===== src/Worker/Cpu/Cores/Finish.antt =====
-- src/worker/worker_cpu.h: the end of a task on a core.
use mathlib.Core.Path.{subst}
use h_axe_simulation.Prelude.{
  ℕ, suc, ◌+◌, ◌≡◌, refl, sym, ap, ◌∙◌, true, inl, inr, List, [], ◌∷◌, ok, arith, length, Ensures,
  Ensures-bind, Ensures-ok,
}
use h_axe_simulation.Prelude.Int.{pos}
use h_axe_simulation.Number.{Double, ◌⊖◌, whole, one_double}
use h_axe_simulation.Job.{ShardTask}
use h_axe_simulation.Event.{Event}
use h_axe_simulation.Worker.State.{Worker, Shared, release_memory}
use h_axe_simulation.Worker.Cpu.{
  core_available, decrease_cpu_usage, decrease_cpu_reservation, start_cpu_task, start_next_cpu_task,
  finish_cpu_task,
}
use h_axe_simulation.Worker.Cpu.Cores.{
  IsCounter, IsServed, release_memory_cores, free_lem, start-Started, Balanced,
}

module _ {W : Type 0} ⦃d : Double W⦄ where
  module _ (law : IsCounter W) where
    decrease_cores :
        (x : W) (w : Worker W)
        → let w' = decrease_cpu_reservation x (decrease_cpu_usage one_double w) in
          (w'.usage.cpu_of ≡ w.usage.cpu_of ⊖ one_double)
          × (w'.capacity ≡ w.capacity)
          × (w'.cpu_queue ≡ w.cpu_queue)
    unfolding decrease_cpu_usage decrease_cpu_reservation
    decrease_cores x w = ground arith

    -- The core that was left is free for the task that waits longest.
    next-Balanced :
        (cores used : ℕ) (time : W) (w w2 : Worker W) (s : Shared W) (q : List (ShardTask W))
        → w.cpu_queue ≡ q
        → IsServed cores (suc used) w
        → w2.usage.cpu_of ≡ whole (pos used)
        → d.truncate w2.capacity.cpu_of ≡ pos cores
        → w2.cpu_queue ≡ w.cpu_queue
        → Ensures (Balanced law cores (suc used) (length q) 0 1) (start_next_cpu_task time q w2 s)
    unfolding start_next_cpu_task
    next-Balanced cores used time w w2 s [] e v counted limit queue = (
      used,
      record {
        counted = counted;
        limit = limit;
        representable = v.representable;
        bounded = omega (arith, v.bounded);
        busy = inl (queue ∙ e);
      },
      rw (queue, e) (omega arith),
      omega arith,
    )
    next-Balanced cores used time w w2 s (task ∷ rest) e v counted limit queue =
        let all : suc used ≡ cores = ground (arith, v.busy) in
        let free : core_available w2 ≡ true =
          free_lem law cores used w2 counted limit v.representable all in
        rw (free, start_next_cpu_task)
          (Ensures-bind _ (start_cpu_task time task w2 s) _
            λ (r : Worker W × Shared W × List (Event W)) started.
              let (counted', limit', _, one) =
                Ensures-ok _ _
                  (start-Started law cores used time task w2 s counted limit
                    (omega (arith, v.representable)))
                  started in
              (
                suc used,
                record {
                  counted = counted';
                  limit = limit';
                  representable = v.representable;
                  bounded = v.bounded;
                  busy = inr all;
                },
                omega arith,
                rw one (omega arith),
              ))

    finish-Balanced :
        (cores used : ℕ) (time : W) (task : ShardTask W) (w : Worker W) (s : Shared W)
        → IsServed cores (suc used) w
        → Ensures
            (Balanced law cores (suc used) (length w.cpu_queue) 0 1)
            (finish_cpu_task time task w s)
    unfolding finish_cpu_task
    finish-Balanced cores used time task w s v =
        Ensures-bind _ (release_memory task.memory_need w) _ λ w1 released.
          let (usage, capacity, queue) = release_memory_cores _ _ released in
          let (usage', capacity', queue') = decrease_cores task.req w1 in
          let same = queue' ∙ queue in
          let w2 = decrease_cpu_reservation task.req (decrease_cpu_usage one_double w1) in
          subst
            (λ l.
              Ensures (Balanced law cores (suc used) (length w.cpu_queue) 0 1)
                (start_next_cpu_task time l w2 s))
            (sym same)
            (next-Balanced cores used time w w2 s w.cpu_queue refl v
              (usage'
                ∙ (ap (λ x. x ⊖ one_double) (usage ∙ v.counted)
                    ∙ law.down used (omega (arith, v.bounded, v.representable))))
              (ap (λ p. d.truncate p.cpu_of) (capacity' ∙ capacity) ∙ v.limit) same)

-- When a task ends, its core goes to the task that waits longest, if one does: the tasks that run or
-- wait are one less, all cores stay in use while any task waits, and there is an event exactly for
-- each task that starts.
pub finish_cpu_task_lem :
    {W : Type 0} ⦃d : Double W⦄ (law : IsCounter W) (cores used : ℕ) (time : W) (task : ShardTask W)
    (w : Worker W) (s : Shared W) {w' : Worker W} {s' : Shared W} {events : List (Event W)}
    → IsServed cores (suc used) w
    → finish_cpu_task time task w s ≡ ok (w', s', events)
    → (used' : ℕ) × IsServed cores used' w'
      × (used' + length w'.cpu_queue + 1 ≡ suc used + length w.cpu_queue + 0)
      × (used' + 1 ≡ suc used + length events)
finish_cpu_task_lem law cores used time task w s v e =
    Ensures-ok (Balanced law cores (suc used) (length w.cpu_queue) 0 1) _
      (finish-Balanced law cores used time task w s v) e

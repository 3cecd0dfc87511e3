-- ===== src/Worker/Cpu.antt =====
-- src/worker/worker_cpu.h: tasks on the cores of a worker, and the queue of those that wait.
pub mod Cores
use h_axe_simulation.Prelude.{
  ℕ, Bool, true, false, List, [], ◌∷◌, ◌++◌, Outcome, ok, ◌>>=◌, if◌then◌else◌,
}
use h_axe_simulation.Prelude.Int.{ℤ, pos, ◌+ℤ◌, leb_ℤ}
use h_axe_simulation.Number.{Double, ◌⊕◌, ◌⊖◌, one_double}
use h_axe_simulation.Job.{ShardTask}
use h_axe_simulation.Event.{Event}
use h_axe_simulation.Worker.State.{Worker, Shared, finish_event, take_memory, release_memory}

module _ {W : Type 0} ⦃d : Double W⦄ where
  -- `ResourceAvailable`
  unfoldable pub core_available : Worker W → Bool
  core_available w = leb_ℤ (d.truncate w.usage.cpu_of +ℤ pos 1) (d.truncate w.capacity.cpu_of)

  unfoldable pub increase_cpu_usage : W → Worker W → Worker W
  increase_cpu_usage resource w = record w {
    usage = record (w.usage) { cpu_of = w.usage.cpu_of ⊕ resource };
  }

  unfoldable pub decrease_cpu_usage : W → Worker W → Worker W
  decrease_cpu_usage resource w = record w {
    usage = record (w.usage) { cpu_of = w.usage.cpu_of ⊖ resource };
  }

  unfoldable pub decrease_cpu_reservation : W → Worker W → Worker W
  decrease_cpu_reservation resource w =
      if w.is_worker
      then record w {
        reservation = record (w.reservation) { cpu_of = w.reservation.cpu_of ⊖ resource };
      }
      else w

  -- `ComputeNewTaskDuration`
  unfoldable pub cpu_duration : ShardTask W → Shared W → W
  cpu_duration task s = task.req ⊕ s.draw s.event_num task.req

  -- A task takes a core, and its memory if it wants any.
  unfoldable pub start_cpu_task :
      W → ShardTask W → Worker W → Shared W → Outcome (Worker W × Shared W × List (Event W))
  unfolding increase_cpu_usage cpu_duration
  start_cpu_task time task w s = do
    let w1 = increase_cpu_usage one_double w
    w2 ← take_memory task.memory_need w1
    let (event, s') = finish_event (time ⊕ cpu_duration task s) task s
    ok (w2, s', event ∷ [])

  -- `PlaceNewTask`
  unfoldable pub place_cpu_task :
      W → ShardTask W → Worker W → Shared W → Outcome (Worker W × Shared W × List (Event W))
  unfolding core_available start_cpu_task
  place_cpu_task time task w s = elim w.cpu_queue [
    | [] ↦
        if core_available w
        then start_cpu_task time task w s
        else ok (record w { cpu_queue = task ∷ [] }, s, [])
    | q ∷ qs ↦ ok (record w { cpu_queue = q ∷ (qs ++ task ∷ []) }, s, [])
  ]

  -- The next task of the queue starts, if a core is free.
  unfoldable pub start_next_cpu_task :
      W → List (ShardTask W) → Worker W → Shared W → Outcome (Worker W × Shared W × List (Event W))
  unfolding core_available start_cpu_task
  start_next_cpu_task time [] w s = ok (w, s, [])
  start_next_cpu_task time (task ∷ rest) w s =
      if core_available w
      then (do
        (w', s', events) ← start_cpu_task time task w s
        ok (record w' { cpu_queue = rest }, s', events))
      else ok (w, s, [])

  -- `TaskFinish`
  unfoldable pub finish_cpu_task :
      W → ShardTask W → Worker W → Shared W → Outcome (Worker W × Shared W × List (Event W))
  unfolding decrease_cpu_usage decrease_cpu_reservation start_next_cpu_task
  finish_cpu_task time task w s = do
    w1 ← release_memory task.memory_need w
    let w2 = decrease_cpu_reservation task.req (decrease_cpu_usage one_double w1)
    start_next_cpu_task time w2.cpu_queue w2 s

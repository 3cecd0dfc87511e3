-- ===== src/Worker/Kept.antt =====
-- src/worker: what the rest of the program does to a worker.
use h_axe_simulation.Prelude.{ℕ, List, Ensures}
use h_axe_simulation.Prelude.Int.{ℤ}
use h_axe_simulation.Number.{Double}
use h_axe_simulation.Resource.{ResourcePack}
use h_axe_simulation.Job.{ShardTask}
use h_axe_simulation.Event.{Event}
use h_axe_simulation.Worker.State.{Worker, Shared}
use h_axe_simulation.Worker.Machine.{
  place_new_task, task_finish, subgraph_finish, reserve, init_worker,
}

-- A property of a worker that every call from the scheduler, the managers and the simulator keeps.
pub record IsKept {W : Type 0} ⦃d : Double W⦄ (P : Worker W → Type 0) : Type 0 where
  pub placing :
      (time : W) (task : ShardTask W) (w : Worker W) (s : Shared W)
      → P w
      → Ensures (λ (r : Worker W × Shared W × List (Event W)). P r.0) (place_new_task time task w s)
  pub finishing :
      (time : W) (event_id : ℕ) (task : ShardTask W) (w : Worker W) (s : Shared W)
      → P w
      → Ensures
          (λ (r : Worker W × Shared W × List (Event W)). P r.0)
          (task_finish time event_id task w s)
  pub ending : (time mem : W) (w : Worker W) → P w → Ensures P (subgraph_finish time mem w)
  pub reserving : (req : ResourcePack W) (w : Worker W) → P w → P ((reserve req w).0)
  pub beginning : (i : ℤ) (w : Worker W) → P w → Ensures P (init_worker i w)

-- ===== src/Effect/Sized.antt =====
-- src/worker: the handlers leave the number of workers as it is.
use h_axe_simulation.Prelude.{
  ℕ, List, ◌≡◌, refl, ◌∙◌, Outcome, Ensures, Ensures-ok, ok, fail, length, length-set, set,
}
use h_axe_simulation.Number.{Double}
use h_axe_simulation.Event.{Event}
use h_axe_simulation.Worker.State.{Worker, Shared}
use h_axe_simulation.Worker.Machine.{place_new_task, task_finish}
use h_axe_simulation.Placement.Count.{PlacedAmong, task_placement-PlacedAmong}
use h_axe_simulation.Manager.Handlers.{Cluster}
use h_axe_simulation.Effect.{IsEffect, on_worker-Ensures, end_call}

module _ {W : Type 0} ⦃d : Double W⦄ where
  abbrev pub Sized : Cluster W → Cluster W × List (Event W) → Type 0
  Sized c r = length r.0.workers ≡ length c.workers

  -- Whatever a call makes of a worker.
  set-Sized :
      (m : Outcome (Worker W × Shared W × List (Event W))) (c : Cluster W) (n : ℕ)
      → Ensures (λ r. length (set c.workers n r.0) ≡ length c.workers) m
  set-Sized (ok r) c n = length-set c.workers n r.0
  set-Sized (fail why) c n = tt

  pub Sized-IsEffect : IsEffect Sized
  Sized-IsEffect = record {
    idle = λ c users. refl;
    append = λ c c1 c2 es fs h k. k ∙ h;
    made = λ t time priority principal members c h. refl;
    placing = λ i time task c.
        on_worker-Ensures (Sized c) i (place_new_task time task) c
          (λ n w e. set-Sized (place_new_task time task w c.shared) c n);
    finishing = λ i time event_id task c.
        on_worker-Ensures (Sized c) i (task_finish time event_id task) c
          (λ n w e. set-Sized (task_finish time event_id task w c.shared) c n);
    ending = λ i time mem c.
        on_worker-Ensures (Sized c) i (end_call time mem) c
          (λ n w e. set-Sized (end_call time mem w c.shared) c n);
    reserving = λ name queue cursor c r e.
        Ensures-ok (PlacedAmong (length c.workers)) _
          (task_placement-PlacedAmong name queue c.workers cursor) e;
  }

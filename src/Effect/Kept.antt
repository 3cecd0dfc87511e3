-- ===== src/Effect/Kept.antt =====
-- src/worker: what holds of the workers after the handlers.
use h_axe_simulation.Prelude.{
  ℕ, ◌≡◌, List, Outcome, ok, fail, some, get_elem?, set, Ensures, Ensures-bind, Ensures-ok, All,
  All-set, All-get,
}
use h_axe_simulation.Number.{Double}
use h_axe_simulation.Event.{Event}
use h_axe_simulation.Worker.State.{Worker, Shared}
use h_axe_simulation.Worker.Kept.{IsKept}
use h_axe_simulation.Worker.Machine.{place_new_task, subgraph_finish, task_finish}
use h_axe_simulation.Placement.Workers.{PlacedSound, task_placement-PlacedSound}
use h_axe_simulation.Manager.Handlers.{Cluster}
use h_axe_simulation.Effect.{IsEffect, on_worker-Ensures, end_call}

module _ {W : Type 0} ⦃d : Double W⦄ (P : Worker W → Type 0) (kept : IsKept P) where
  -- If all workers have the property, they have it afterwards.
  abbrev pub Keeps : Cluster W → Cluster W × List (Event W) → Type 0
  Keeps c r = All P c.workers → All P r.0.workers

  -- What a call makes of a worker that has the property.
  after_held :
      (m : Outcome (Worker W × Shared W × List (Event W))) (c : Cluster W) (n : ℕ) (w : Worker W)
      → get_elem? c.workers n ≡ some w
      → (P w → Ensures (λ (r : Worker W × Shared W × List (Event W)). P r.0) m)
      → Ensures (λ r. All P c.workers → All P (set c.workers n r.0)) m
  after_held (ok r) c n w e h = λ hs. All-set P c.workers n r.0 (h (All-get P c.workers n hs e)) hs
  after_held (fail why) c n w e h = tt

  pub Keeps-IsEffect : IsEffect Keeps
  Keeps-IsEffect = record {
    idle = λ c users h. h;
    append = λ c c1 c2 es fs h k g. k (h g);
    made = λ t time priority principal members c h g. g;
    placing = λ i time task c. on_worker-Ensures (Keeps c) i (place_new_task time task) c (λ n w e.
        after_held (place_new_task time task w c.shared) c n w e
          (kept.placing time task w c.shared));
    finishing = λ i time event_id task c.
        on_worker-Ensures (Keeps c) i (task_finish time event_id task) c (λ n w e.
          after_held (task_finish time event_id task w c.shared) c n w e
            (kept.finishing time event_id task w c.shared));
    ending = λ i time mem c. on_worker-Ensures (Keeps c) i (end_call time mem) c (λ n w e.
        Ensures-bind _ (subgraph_finish time mem w) _ (λ w' g h.
          let held = All-get P c.workers n h e in
          All-set P c.workers n w' (Ensures-ok P _ (kept.ending time mem w held) g) h));
    reserving = λ name queue cursor c r e h.
        Ensures-ok (PlacedSound P kept) _
          (task_placement-PlacedSound P kept name queue c.workers cursor h) e;
  }

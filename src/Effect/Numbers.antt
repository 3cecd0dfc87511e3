-- ===== src/Effect/Numbers.antt =====
-- src/event/event.h: the numbers of the events that the handlers return.
use h_axe_simulation.Prelude.{List, Ensures-bind, arith}
use h_axe_simulation.Number.{Double}
use h_axe_simulation.Event.{Event}
use h_axe_simulation.Worker.Machine.{place_new_task, subgraph_finish, task_finish}
use h_axe_simulation.Worker.Numbers.{
  IsNumbered, IsNumbered-none, IsNumbered-append, new_event-IsNumbered, place_new_task-Numbers,
  task_finish-Numbers,
}
use h_axe_simulation.Manager.Handlers.{Cluster}
use h_axe_simulation.Effect.{IsEffect, on_worker-Ensures, end_call}

module _ {W : Type 0} ⦃d : Double W⦄ where
  -- The events have numbers of their own, from the count of events on.
  abbrev pub Numbered : Cluster W → Cluster W × List (Event W) → Type 0
  Numbered c r = IsNumbered c.shared.event_num r.0.shared.event_num r.1

  pub Numbered-IsEffect : IsEffect Numbered
  Numbered-IsEffect = record {
    idle = λ c users. IsNumbered-none (omega arith);
    append = λ c c1 c2 es fs h k. IsNumbered-append h k;
    made = λ t time priority principal members c h.
        new_event-IsNumbered t time priority principal members c.shared;
    placing = λ i time task c.
        on_worker-Ensures (Numbered c) i (place_new_task time task) c
          (λ n w e. place_new_task-Numbers time task w c.shared);
    finishing = λ i time event_id task c.
        on_worker-Ensures (Numbered c) i (task_finish time event_id task) c
          (λ n w e. task_finish-Numbers time event_id task w c.shared);
    ending = λ i time mem c. on_worker-Ensures (Numbered c) i (end_call time mem) c (λ n w e.
        Ensures-bind _ (subgraph_finish time mem w) _ (λ w' g. IsNumbered-none (omega arith)));
    reserving = λ name queue cursor c r e. IsNumbered-none (omega arith);
  }

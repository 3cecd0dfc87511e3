-- ===== src/Effect/Classes.antt =====
-- src/event/*.h: the classes of the events that the handlers return.
use h_axe_simulation.Prelude.{List, Ensures-bind, Ensures-map, All, All-append, All-mono}
use h_axe_simulation.Number.{Double}
use h_axe_simulation.Event.{Event}
use h_axe_simulation.Event.Classes.{HasMembers}
use h_axe_simulation.Worker.State.{new_event}
use h_axe_simulation.Worker.Machine.{place_new_task, subgraph_finish, task_finish}
use h_axe_simulation.Worker.Events.{IsFinish, place_new_task-Finishes, task_finish-Finishes}
use h_axe_simulation.Manager.Handlers.{Cluster}
use h_axe_simulation.Effect.{IsEffect, on_worker-Ensures, end_call}

module _ {W : Type 0} ⦃d : Double W⦄ where
  -- The events that are returned are of the classes that their types stand for.
  abbrev pub Classed : Cluster W → Cluster W × List (Event W) → Type 0
  Classed c r = All HasMembers r.1

  IsFinish-HasMembers : (e : Event W) → IsFinish e → HasMembers e
  IsFinish-HasMembers e (task, p, q, r) = rw (p, r) q

  pub Classed-IsEffect : IsEffect Classed
  unfolding new_event
  Classed-IsEffect = record {
    idle = λ c users. tt;
    append = λ c c1 c2 es fs h k. All-append HasMembers es fs h k;
    made = λ t time priority principal members c h. (h, tt);
    placing = λ i time task c.
        on_worker-Ensures (Classed c) i (place_new_task time task) c (λ n w e.
          Ensures-map (place_new_task time task w c.shared)
            (place_new_task-Finishes time task w c.shared)
            (λ r h. All-mono IsFinish-HasMembers r.2 h));
    finishing = λ i time event_id task c.
        on_worker-Ensures (Classed c) i (task_finish time event_id task) c (λ n w e.
          Ensures-map (task_finish time event_id task w c.shared)
            (task_finish-Finishes time event_id task w c.shared)
            (λ r h. All-mono IsFinish-HasMembers r.2 h));
    ending = λ i time mem c.
        on_worker-Ensures (Classed c) i (end_call time mem) c
          (λ n w e. Ensures-bind _ (subgraph_finish time mem w) _ (λ w' g. tt));
    reserving = λ name queue cursor c r e. tt;
  }

-- ===== src/Manager/Requests/Handlers.antt =====
-- src/job_manager.h: what the handlers of decisions and of ends of tasks ask for.
use h_axe_simulation.Prelude.{
  ℕ, suc, List, [], ◌∷◌, ◌++◌, ok, fail, or_fail, out_of_range, undefined, Ensures, Ensures-bind,
  Ensures-ok, Ensures-if, arith, ◌==◌, get_elem?, length,
}
use h_axe_simulation.Prelude.Int.{ℤ, eqb_ℤ, at}
use h_axe_simulation.Number.{Double}
use h_axe_simulation.Job.{ShardTaskId, key_eq, ShardTask, SubGraph, unplaced, id_of, set_worker_id}
use h_axe_simulation.Event.{Event, Members}
use h_axe_simulation.Worker.State.{new_event}
use h_axe_simulation.Worker.Machine.{place_new_task, task_finish}
use h_axe_simulation.Manager.State.{Manager, put, bump, child_requests}
use h_axe_simulation.Manager.Handlers.{
  Cluster, modify, find_task, on_worker, place_ready, place_subgraph, handle_placement,
  end_subgraph, ready_child, visit_child, visit_children, finish_task, handle_task_finish,
}
use h_axe_simulation.Manager.Requests.{
  requests-append, Asks, AsksNone, child_requests-asked, request_events-asked, placing-AsksNone,
  finishing-AsksNone, place_ready-AsksNone,
}

module _ {W : Type 0} ⦃d : Double W⦄ (i : ℕ) where
  pub handle_placement-Asks :
      (event : Event W) (m : Manager W) (c : Cluster W)
      → Ensures (Asks i m) (handle_placement event m c)
  unfolding handle_placement place_subgraph
  handle_placement-Asks event m c =
      elim event.members
        as (λ members. Ensures (Asks i m) (elim members [
          | Members.decision w k ↦ place_subgraph event.time w k m c
          | _ ↦ fail undefined
        ])) [ Members.decision w k ↦ place_subgraph-Asks w k | _ ↦ tt ]
    where
      place_subgraph-Asks : (w k : ℤ) → Ensures (Asks i m) (place_subgraph event.time w k m c)
      place_subgraph-Asks w k = Ensures-bind (Asks i m) (set_worker_id m.job k w) _ (λ job e1.
          Ensures-bind (Asks i m) (or_fail (at job.subgraphs k) out_of_range) _ (λ sg e2.
            Ensures-bind (Asks i m) (modify c.users job.user_id _) _ (λ users e3.
              let paid : Cluster W = record c { users = users } in
              Ensures-bind (Asks i m) (place_ready event.time w m sg.shard_tasks paid) _ (λ r e4.
                let none_asked =
                  Ensures-ok (AsksNone i) _
                    (place_ready-AsksNone i event.time w m sg.shard_tasks paid) e4 in
                omega (arith, none_asked)))))

  end_subgraph-Asks :
      (time : W) (k : ℕ) (sg : SubGraph W) (m : Manager W) (c : Cluster W)
      → Ensures (Asks i m) (end_subgraph time k sg m c)
  unfolding end_subgraph new_event
  end_subgraph-Asks time k sg m c =
      Ensures-if (Asks i m) (length sg.shard_tasks == m.subgraph_finished_task k) _ _
        (λ a. Ensures-bind (Asks i m) (on_worker sg.worker_id _ c) _ (λ r e1.
          Ensures-bind (Asks i m) (modify r.0.users m.job.user_id _) _ (λ users e2.
            Ensures-if (Asks i m) (suc m.finish_subgraph_num == length m.job.subgraphs) _ _
              (λ b. omega arith) (λ b. omega arith))))
        (λ a. omega arith)

  ready_child-Asks :
      (time : W) (child : ShardTaskId) (m : Manager W) (c : Cluster W)
      → Ensures (Asks i m) (ready_child time child m c)
  unfolding ready_child
  ready_child-Asks time child m c =
      Ensures-bind (Asks i m)
        (or_fail (get_elem? m.job.subgraphs (m.subgraph_of child)) out_of_range) _
        (λ sg e1.
          Ensures-if (Asks i m) (eqb_ℤ sg.worker_id unplaced) _ _
            (λ a.
              Ensures-if (Asks i m)
                (m.subgraph_dep_finish_counter (m.subgraph_of child)
                  == m.subgraph_dep_counter (m.subgraph_of child))
                _ (ok (m, c, []))
                (λ b. Ensures-bind (Asks i m) (child_requests child m) _ (λ r e2.
                  let made = request_events-asked i time r.1 c in
                  let owed = Ensures-ok _ _ (child_requests-asked i child m) e2 in
                  omega (arith, made, owed)))
                (λ b. omega arith))
            (λ a.
              Ensures-bind (Asks i m) (or_fail (find_task child m.tasks) undefined) _ (λ task e2.
                Ensures-bind (Asks i m) (on_worker sg.worker_id (place_new_task time task) c) _
                  (λ r e3.
                    let none_asked =
                      Ensures-ok (AsksNone i) _ (placing-AsksNone i sg.worker_id time task c) e3 in
                    omega (arith, none_asked)))))

  visit_children-Asks :
      (time : W) (children : List ShardTaskId) (m : Manager W) (c : Cluster W)
      → Ensures (Asks i m) (visit_children time children m c)
  unfolding visit_children visit_child
  visit_children-Asks time [] m c = omega arith
  visit_children-Asks time (child ∷ children) m c =
      Ensures-bind (Asks i m) (visit_child time child m c) _ (λ (m1, c1, events) e.
        Ensures-bind (Asks i m) (visit_children time children m1 c1) _ (λ (m2, c2, later) g.
          let counted : Manager W = record m {
            dep_finish_counter = bump key_eq child m.dep_finish_counter;
            subgraph_dep_finish_counter =
                bump ◌==◌ (m.subgraph_of child) m.subgraph_dep_finish_counter;
          } in
          let one =
            Ensures-ok (Asks i m) (visit_child time child m c)
              (Ensures-if (Asks i m) (counted.dep_finish_counter child == m.dep_counter child)
                (ready_child time child counted c) (ok (counted, c, []))
                (λ a. ready_child-Asks time child counted c) (λ a. omega arith))
              e in
          let more = Ensures-ok (Asks i m1) _ (visit_children-Asks time children m1 c1) g in
          omega (arith, requests-append i events later, one, more)))

  finish_task-Asks :
      (time : W) (event_id : ℕ) (task : ShardTask W) (m : Manager W) (c : Cluster W)
      → Ensures (Asks i m) (finish_task time event_id task m c)
  unfolding finish_task new_event
  finish_task-Asks time event_id task m c =
      let k = m.subgraph_of (id_of task) in
      let counted : Manager W = record m {
        subgraph_finished_task =
            put ◌==◌ k (suc (m.subgraph_finished_task k)) m.subgraph_finished_task;
      } in
      Ensures-bind (Asks i m) (or_fail (get_elem? m.job.subgraphs k) out_of_range) _ (λ sg e1.
        Ensures-bind (Asks i m) (on_worker sg.worker_id (task_finish time event_id task) c) _
          (λ (c1, events) e2.
            Ensures-bind (Asks i m) (modify c1.users m.job.user_id _) _ (λ users e3.
              let paid : Cluster W = record c1 { users = users } in
              Ensures-bind (Asks i m) (end_subgraph time k sg counted paid) _ (λ (m2, c2, ended) e4.
                Ensures-bind (Asks i m) (visit_children time task.children m2 c2) _
                  (λ (m3, c3, later) e5.
                    let called =
                      Ensures-ok (AsksNone i) _
                        (finishing-AsksNone i sg.worker_id time event_id task c) e2 in
                    let ends =
                      Ensures-ok (Asks i counted) _ (end_subgraph-Asks time k sg counted paid) e4 in
                    let visits =
                      Ensures-ok (Asks i m2) _ (visit_children-Asks time task.children m2 c2) e5 in
                    omega (
                      arith,
                      requests-append i (events ++ ended ++ later) (_ ∷ []),
                      requests-append i (events ++ ended) later,
                      requests-append i events ended,
                      called,
                      ends,
                      visits,
                    ))))))

  pub handle_task_finish-Asks :
      (event : Event W) (m : Manager W) (c : Cluster W)
      → Ensures (Asks i m) (handle_task_finish event m c)
  unfolding handle_task_finish
  handle_task_finish-Asks event m c =
      elim event.members
        as (λ members. Ensures (Asks i m) (elim members [
          | Members.finished_task task ↦ finish_task event.time event.event_id task m c
          | _ ↦ fail undefined
        ])) [
          | Members.finished_task task ↦ finish_task-Asks event.time event.event_id task m c
          | _ ↦ tt
        ]

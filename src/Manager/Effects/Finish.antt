-- ===== src/Manager/Effects/Finish.antt =====
-- src/job_manager.h: the same for the end of a task, and for all handlers.
use mathlib.Core.Path.{subst}
use h_axe_simulation.Prelude.{
  ℕ, suc, inl, inr, ◌≡◌, List, [], ◌∷◌, ◌++◌, ok, fail, ◌>>=◌, or_fail, out_of_range, undefined,
  Ensures, Ensures-bind, Ensures-ok, Ensures-if, Bool-cases, if◌then◌else◌, ◌==◌, get_elem?, length,
  refl,
}
use h_axe_simulation.Prelude.Int.{ℤ, pos, eqb_ℤ}
use h_axe_simulation.Number.{Double, whole}
use h_axe_simulation.Resource.{ResourceRequest}
use h_axe_simulation.Job.{ShardTaskId, key_eq, ShardTask, SubGraph, unplaced, id_of}
use h_axe_simulation.Event.{Event, EventType, Members, scheduler_principal}
use h_axe_simulation.User.{User}
use h_axe_simulation.Worker.State.{Shared, new_event}
use h_axe_simulation.Worker.Machine.{place_new_task, task_finish}
use h_axe_simulation.Manager.State.{Manager, put, bump, child_requests}
use h_axe_simulation.Manager.Handlers.{
  Cluster, modify, find_task, on_worker, request_events, end_subgraph, ready_child, visit_child,
  visit_children, finish_task, handle_task_finish, manager_handle,
}
use h_axe_simulation.Effect.{IsEffect, MakesNone, end_call-MakesNone}
use h_axe_simulation.Manager.Effects.{
  Acts, nothing-done, request_events-R, after_users, handle_admission-Acts, handle_placement-Acts,
}

module _ {W : Type 0} ⦃d : Double W⦄ {R : Cluster W → Cluster W × List (Event W) → Type 0}
    (effect : IsEffect R) where
  -- The event of the end of a job, whose number is taken before the worker is called.
  job_finish-R :
      (time : W) (job_id : ℤ) (submitted : W) (c c1 : Cluster W) (users : List (User W))
      → R c (c1, [])
      → c1.shared ≡ c.shared
      → let (event, s') =
          new_event EventType.job_finish time
            (pos 0)
            scheduler_principal
            (Members.finished_job job_id submitted)
            c.shared in
        R c (record c1 { users = users; shared = s' }, event ∷ [])
  job_finish-R time job_id submitted c c1 users h same =
      let members = Members.finished_job job_id submitted in
      let made =
        effect.made EventType.job_finish time (pos 0) scheduler_principal members
          (record c1 { users = users }) refl in
      subst
        (λ (s : Shared W).
          let (event, s') =
            new_event EventType.job_finish time (pos 0) scheduler_principal members s in
          R c (record c1 { users = users; shared = s' }, event ∷ []))
        same (effect.append c c1 _ [] (_ ∷ []) h (after_users effect c1 _ users (_ ∷ []) made))

  end_subgraph-Acts :
      (time : W) (i : ℕ) (sg : SubGraph W) (m : Manager W) (c : Cluster W)
      → Ensures (Acts effect c) (end_subgraph time i sg m c)
  unfolding end_subgraph
  end_subgraph-Acts time i sg m c =
      elim (Bool-cases (length sg.shard_tasks == m.subgraph_finished_task i)) [
        | inr a ↦ rw a (nothing-done effect c)
        | inl a ↦ rw a (
            Ensures-bind (Acts effect c) (on_worker sg.worker_id _ c) _ (λ (c1, others) e1.
              let mem = whole sg.memory_cap in
              let (same, none_made) =
                Ensures-ok (MakesNone c) _ (end_call-MakesNone sg.worker_id time mem c) e1 in
              let ended =
                subst (λ (es : List (Event W)). R c (c1, es)) none_made
                  (Ensures-ok (R c) _ (effect.ending sg.worker_id time mem c) e1) in
              Ensures-bind (Acts effect c) (modify c1.users m.job.user_id _) _ (λ users e2.
                elim (Bool-cases (suc m.finish_subgraph_num == length m.job.subgraphs)) [
                  | inl b ↦
                      rw b
                        (job_finish-R time m.job.job_id m.job.submission_time c c1 users ended same)
                  | inr b ↦ rw b (effect.append c c1 _ [] [] ended (effect.idle c1 users))
                ])))
      ]

  requests-Acts :
      (time : W) (child : ShardTaskId) (m : Manager W) (c : Cluster W)
      → Ensures (Acts effect c) (
          if m.subgraph_dep_finish_counter (m.subgraph_of child)
            == m.subgraph_dep_counter (m.subgraph_of child)
          then (child_requests child m >>= λ (r : Manager W × List (ResourceRequest W)).
              ok (r.0, (request_events time r.1 c).0, (request_events time r.1 c).1))
          else ok (m, c, []))
  requests-Acts time child m c =
      Ensures-if (Acts effect c)
        (m.subgraph_dep_finish_counter (m.subgraph_of child)
          == m.subgraph_dep_counter (m.subgraph_of child))
        _ (ok (m, c, []))
        (λ b.
          Ensures-bind (Acts effect c) (child_requests child m) _
            (λ r e. request_events-R effect time r.1 c))
        (λ b. nothing-done effect c)

  ready_child-Acts :
      (time : W) (child : ShardTaskId) (m : Manager W) (c : Cluster W)
      → Ensures (Acts effect c) (ready_child time child m c)
  unfolding ready_child
  ready_child-Acts time child m c =
      Ensures-bind (Acts effect c)
        (or_fail (get_elem? m.job.subgraphs (m.subgraph_of child)) out_of_range) _
        (λ sg e1. elim (Bool-cases (eqb_ℤ sg.worker_id unplaced)) [
          | inl a ↦ rw a (requests-Acts time child m c)
          | inr a ↦ rw a (
              Ensures-bind (Acts effect c) (or_fail (find_task child m.tasks) undefined) _
                (λ task e2.
                  Ensures-bind (Acts effect c) (on_worker sg.worker_id (place_new_task time task) c)
                    _ (λ r e3. Ensures-ok (R c) _ (effect.placing sg.worker_id time task c) e3)))
        ])

  visit_child-Acts :
      (time : W) (child : ShardTaskId) (m : Manager W) (c : Cluster W)
      → Ensures (Acts effect c) (visit_child time child m c)
  unfolding visit_child
  visit_child-Acts time child m c =
      let counted : Manager W = record m {
        dep_finish_counter = bump key_eq child m.dep_finish_counter;
        subgraph_dep_finish_counter = bump ◌==◌ (m.subgraph_of child) m.subgraph_dep_finish_counter;
      } in
      Ensures-if (Acts effect c) (counted.dep_finish_counter child == m.dep_counter child)
        (ready_child time child counted c) (ok (counted, c, []))
        (λ a. ready_child-Acts time child counted c) (λ a. nothing-done effect c)

  visit_children-Acts :
      (time : W) (children : List ShardTaskId) (m : Manager W) (c : Cluster W)
      → Ensures (Acts effect c) (visit_children time children m c)
  unfolding visit_children
  visit_children-Acts time [] m c = nothing-done effect c
  visit_children-Acts time (child ∷ children) m c =
      Ensures-bind (Acts effect c) (visit_child time child m c) _ (λ (m1, c1, events) e.
        Ensures-bind (Acts effect c) (visit_children time children m1 c1) _ (λ (m2, c2, later) g.
          effect.append c c1 c2 events later
            (Ensures-ok (Acts effect c) _ (visit_child-Acts time child m c) e)
            (Ensures-ok (Acts effect c1) _ (visit_children-Acts time children m1 c1) g)))

  finish_task-Acts :
      (time : W) (event_id : ℕ) (task : ShardTask W) (m : Manager W) (c : Cluster W)
      → Ensures (Acts effect c) (finish_task time event_id task m c)
  unfolding finish_task
  finish_task-Acts time event_id task m c =
      let i = m.subgraph_of (id_of task) in
      let noted : Manager W = record m {
        subgraph_finished_task =
            put ◌==◌ i (suc (m.subgraph_finished_task i)) m.subgraph_finished_task;
      } in
      Ensures-bind (Acts effect c) (or_fail (get_elem? m.job.subgraphs i) out_of_range) _ (λ sg e1.
        Ensures-bind (Acts effect c) (on_worker sg.worker_id (task_finish time event_id task) c) _
          (λ (c1, events) e2.
            Ensures-bind (Acts effect c) (modify c1.users m.job.user_id _) _ (λ users e3.
              let paid : Cluster W = record c1 { users = users } in
              Ensures-bind (Acts effect c) (end_subgraph time i sg noted paid) _
                (λ (m2, c2, ended) e4.
                  Ensures-bind (Acts effect c) (visit_children time task.children m2 c2) _
                    (λ (m3, c3, later) e5.
                      let called =
                        Ensures-ok (R c) _ (effect.finishing sg.worker_id time event_id task c)
                          e2 in
                      let ends =
                        Ensures-ok (Acts effect paid) _ (end_subgraph-Acts time i sg noted paid)
                          e4 in
                      let visits =
                        Ensures-ok (Acts effect c2) _ (visit_children-Acts time task.children m2 c2)
                          e5 in
                      let available =
                        effect.made EventType.resource_available time (pos 0) scheduler_principal
                          Members.nothing c3 refl in
                      let began =
                        effect.append c c1 c2 events ended called
                          (after_users effect c1 c2 users ended ends) in
                      effect.append c c3 _ _ (_ ∷ [])
                        (effect.append c c2 c3 (events ++ ended) later began visits) available)))))

  handle_task_finish-Acts :
      (event : Event W) (m : Manager W) (c : Cluster W)
      → Ensures (Acts effect c) (handle_task_finish event m c)
  unfolding handle_task_finish
  handle_task_finish-Acts event m c =
      elim event.members
        as (λ members. Ensures (Acts effect c) (elim members [
          | Members.finished_task task ↦ finish_task event.time event.event_id task m c
          | _ ↦ fail undefined
        ])) [
          | Members.finished_task task ↦ finish_task-Acts event.time event.event_id task m c
          | _ ↦ tt
        ]

  pub manager_handle-Acts :
      (kind : EventType) (event : Event W) (m : Manager W) (c : Cluster W)
      → Ensures (Acts effect c) (manager_handle kind event m c)
  unfolding manager_handle
  manager_handle-Acts EventType.job_admission = handle_admission-Acts effect
  manager_handle-Acts EventType.placement_decision = handle_placement-Acts effect
  manager_handle-Acts EventType.task_finish = handle_task_finish-Acts
  manager_handle-Acts EventType.resource_available = λ event m c. tt
  manager_handle-Acts EventType.job_finish = λ event m c. tt
  manager_handle-Acts EventType.new_task_req = λ event m c. tt
  manager_handle-Acts EventType.new_job = λ event m c. tt

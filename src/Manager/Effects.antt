-- ===== src/Manager/Effects.antt =====
-- src/job_manager.h: a relation that holds of the steps of the handlers holds of the handlers.
pub mod Finish
use mathlib.Core.Path.{subst}
use h_axe_simulation.Prelude.{
  ℕ, suc, inl, inr, ◌≡◌, List, [], ◌∷◌, ◌++◌, ok, fail, ◌>>=◌, or_fail, out_of_range, undefined,
  Ensures, Ensures-bind, Ensures-ok, Ensures-if, Bool-cases, if◌then◌else◌, ◌==◌, get_elem?, length,
  refl,
}
use h_axe_simulation.Prelude.Int.{ℤ, pos, eqb_ℤ, at}
use h_axe_simulation.Number.{Double, whole}
use h_axe_simulation.Resource.{ResourceRequest}
use h_axe_simulation.Job.{ShardTaskId, key_eq, ShardTask, SubGraph, unplaced, id_of, set_worker_id}
use h_axe_simulation.Event.{Event, EventType, Members, scheduler_principal}
use h_axe_simulation.User.{User}
use h_axe_simulation.Worker.State.{Shared, new_event}
use h_axe_simulation.Worker.Machine.{place_new_task, task_finish}
use h_axe_simulation.Manager.State.{Manager, put, bump, child_requests, admission_requests}
use h_axe_simulation.Manager.Handlers.{
  Cluster, Managed, modify, find_task, on_worker, request_events, handle_admission, place_ready,
  place_subgraph, handle_placement, end_subgraph, ready_child, visit_child, visit_children,
  finish_task, handle_task_finish, manager_handle,
}
use h_axe_simulation.Effect.{IsEffect, MakesNone, end_call-MakesNone}

module _ {W : Type 0} ⦃d : Double W⦄ {R : Cluster W → Cluster W × List (Event W) → Type 0}
    (effect : IsEffect R) where
  -- What a handler of a manager does is such an effect.
  abbrev pub Acts : Cluster W → Managed W → Type 0
  Acts c r = R c (r.1, r.2)

  pub nothing-done : (c : Cluster W) → R c (c, [])
  nothing-done c = effect.idle c c.users

  pub request_events-R :
      (time : W) (reqs : List (ResourceRequest W)) (c : Cluster W)
      → R c (request_events time reqs c)
  unfolding request_events
  request_events-R time [] c = nothing-done c
  request_events-R time (req ∷ reqs) c =
      effect.append c _ _ (_ ∷ []) _
        (effect.made EventType.new_task_req time (pos 0) scheduler_principal (Members.request req) c
          refl)
        (request_events-R time reqs _)

  pub handle_admission-Acts :
      (event : Event W) (m : Manager W) (c : Cluster W)
      → Ensures (Acts c) (handle_admission event m c)
  unfolding handle_admission
  handle_admission-Acts event m c =
      request_events-R event.time (admission_requests 0 m.job.subgraphs m).1 c

  place_one-R :
      (time : W) (i : ℤ) (m : Manager W) (st : ShardTask W) (c : Cluster W)
      → Ensures (R c) (
          if m.dep_counter (id_of st) == m.dep_finish_counter (id_of st)
          then on_worker i (place_new_task time st) c
          else ok (c, []))
  place_one-R time i m st c =
      Ensures-if (R c) (m.dep_counter (id_of st) == m.dep_finish_counter (id_of st))
        (on_worker i (place_new_task time st) c) (ok (c, [])) (λ a. effect.placing i time st c)
        (λ a. nothing-done c)

  place_ready-R :
      (time : W) (i : ℤ) (m : Manager W) (sts : List (ShardTask W)) (c : Cluster W)
      → Ensures (R c) (place_ready time i m sts c)
  unfolding place_ready
  place_ready-R time i m [] c = nothing-done c
  place_ready-R time i m (st ∷ sts) c = Ensures-bind (R c) _ _ (λ (c1, events) e.
      Ensures-bind (R c) (place_ready time i m sts c1) _ (λ (c2, later) g.
        effect.append c c1 c2 events later (Ensures-ok (R c) _ (place_one-R time i m st c) e)
          (Ensures-ok (R c1) _ (place_ready-R time i m sts c1) g)))

  -- The users are changed before or after the rest.
  pub after_users :
      (c c2 : Cluster W) (users : List (User W)) (es : List (Event W))
      → R (record c { users = users }) (c2, es)
      → R c (c2, es)
  after_users c c2 users es h =
      effect.append c (record c { users = users }) c2 [] es (effect.idle c users) h

  place_subgraph-Acts :
      (time : W) (worker_id subgraph_id : ℤ) (m : Manager W) (c : Cluster W)
      → Ensures (Acts c) (place_subgraph time worker_id subgraph_id m c)
  unfolding place_subgraph
  place_subgraph-Acts time worker_id subgraph_id m c =
      Ensures-bind (Acts c) (set_worker_id m.job subgraph_id worker_id) _ (λ job e1.
        Ensures-bind (Acts c) (or_fail (at job.subgraphs subgraph_id) out_of_range) _ (λ sg e2.
          Ensures-bind (Acts c) (modify c.users job.user_id _) _ (λ users e3.
            let paid : Cluster W = record c { users = users } in
            Ensures-bind (Acts c) (place_ready time worker_id m sg.shard_tasks paid) _ (λ r e4.
              after_users c r.0 users r.1
                (Ensures-ok (R paid) _ (place_ready-R time worker_id m sg.shard_tasks paid) e4)))))

  pub handle_placement-Acts :
      (event : Event W) (m : Manager W) (c : Cluster W)
      → Ensures (Acts c) (handle_placement event m c)
  unfolding handle_placement
  handle_placement-Acts event m c =
      elim event.members
        as (λ members. Ensures (Acts c) (elim members [
          | Members.decision w i ↦ place_subgraph event.time w i m c
          | _ ↦ fail undefined
        ])) [ Members.decision w i ↦ place_subgraph-Acts event.time w i m c | _ ↦ tt ]

-- ===== src/Event/Classes.antt =====
-- src/event/*.h: the class that the events of a type are of, and their principals.
use h_axe_simulation.Prelude.{◌≡◌}
use h_axe_simulation.Prelude.Int.{ℤ}
use h_axe_simulation.Event.{Event, EventType, Members, scheduler_principal}

module _ {W : Type 0} where
  -- What an event of a type, for a principal, has as members: what the handler of the type casts it to.
  -- The principal is the scheduler for the types that the scheduler handles, the job number of its task
  -- for the end of a task, and the job number that it carries for an admission.
  abbrev pub Carries : EventType → ℤ → Members W → Type 0
  Carries EventType.task_finish principal (Members.finished_task task) = principal ≡ task.job_id
  Carries EventType.job_admission principal (Members.admitted_job job_id) = principal ≡ job_id
  Carries EventType.placement_decision principal (Members.decision _ _) = Unit
  Carries EventType.resource_available principal Members.nothing = principal ≡ scheduler_principal
  Carries EventType.job_finish principal (Members.finished_job _ _) =
      principal ≡ scheduler_principal
  Carries EventType.new_task_req principal (Members.request _) = principal ≡ scheduler_principal
  Carries EventType.new_job principal (Members.submitted_job _) = principal ≡ scheduler_principal
  Carries _ _ _ = ⊥

  -- The event is of the class that its type stands for.
  abbrev pub HasMembers : Event W → Type 0
  HasMembers e = Carries e.event_type e.principal e.members

-- ===== src/Simulator/Effects.antt =====
-- src/simulator.h: a relation that holds of the steps of the handlers holds of `Dispatch`.
use h_axe_simulation.Prelude.{
  ◌≡◌, refl, List, or_fail, undefined, Ensures, Ensures-bind, Ensures-ok, Ensures-if, get_elem?,
}
use h_axe_simulation.Prelude.Int.{ℤ, pos, negsuc, eqb_ℤ}
use h_axe_simulation.Number.{Double}
use h_axe_simulation.Event.{Event, scheduler_principal}
use h_axe_simulation.Manager.Handlers.{Cluster, manager_handle}
use h_axe_simulation.Manager.Effects.{Acts}
use h_axe_simulation.Manager.Effects.Finish.{manager_handle-Acts}
use h_axe_simulation.Scheduler.{scheduler_handle}
use h_axe_simulation.Scheduler.Effects.{Schedules, scheduler_handle-Schedules}
use h_axe_simulation.Simulator.{Simulator, dispatch, to_manager, to_scheduler}
use h_axe_simulation.Effect.{IsEffect}

module _ {W : Type 0} ⦃d : Double W⦄ {R : Cluster W → Cluster W × List (Event W) → Type 0}
    (effect : IsEffect R) where
  -- What `Dispatch` does to what the handlers share; the queue stays.
  abbrev pub Dispatches : Simulator W → Simulator W × List (Event W) → Type 0
  Dispatches sim r = R sim.cluster (r.0.cluster, r.1) × (r.0.queue ≡ sim.queue)

  to_manager-Dispatches :
      (i : ℤ) (event : Event W) (sim : Simulator W)
      → Ensures (Dispatches sim) (to_manager i event sim)
  unfolding to_manager
  to_manager-Dispatches (negsuc n) event sim = tt
  to_manager-Dispatches (pos n) event sim =
      Ensures-bind (Dispatches sim) (or_fail (get_elem? sim.managers n) undefined) _ (λ m e.
        Ensures-bind (Dispatches sim) (manager_handle event.event_type event m sim.cluster) _
          (λ r g. (
            Ensures-ok (Acts effect sim.cluster) _
                (manager_handle-Acts effect event.event_type event m sim.cluster) g,
            refl,
          )))

  to_scheduler-Dispatches :
      (event : Event W) (sim : Simulator W) → Ensures (Dispatches sim) (to_scheduler event sim)
  unfolding to_scheduler
  to_scheduler-Dispatches event sim =
      Ensures-bind (Dispatches sim)
        (scheduler_handle event.event_type event sim.scheduler sim.cluster.workers
          sim.cluster.shared)
        _
        (λ r g. (
          Ensures-ok (Schedules effect sim.cluster) _
              (scheduler_handle-Schedules effect event sim.scheduler sim.cluster event.event_type)
              g,
          refl,
        ))

  pub dispatch-Dispatches :
      (event : Event W) (sim : Simulator W) → Ensures (Dispatches sim) (dispatch event sim)
  unfolding dispatch
  dispatch-Dispatches event sim =
      Ensures-if (Dispatches sim) (eqb_ℤ event.principal scheduler_principal)
        (to_scheduler event sim) (to_manager event.principal event sim)
        (λ a. to_scheduler-Dispatches event sim)
        (λ a. to_manager-Dispatches event.principal event sim)

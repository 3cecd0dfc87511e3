-- ===== src/Simulator.antt =====
-- src/simulator.h: the whole simulation. `Start` sets it up; here are `Dispatch` and `Serve`, whose loop
-- runs on fuel.
pub mod Start
pub mod Serve
pub mod Reach
pub mod Effects
pub mod Workers
pub mod Events
pub mod Returns
pub mod Report
pub mod Tests
use h_axe_simulation.Prelude.{
  ℕ, zero, suc, Bool, true, false, List, [], ◌∷◌, Option, none, some, Outcome, ok, fail, ◌>>=◌,
  or_fail, undefined, no_fuel, if◌then◌else◌, ◌==◌, get_elem?, set,
}
use h_axe_simulation.Prelude.Int.{ℤ, pos, negsuc, eqb_ℤ}
use h_axe_simulation.Number.{Double}
use h_axe_simulation.Resource.{ResourcePack}
use h_axe_simulation.Event.{Event, scheduler_principal, top_pop, push_all}
use h_axe_simulation.Worker.State.{Shared}
use h_axe_simulation.Scheduler.{Scheduler, scheduler_handle}
use h_axe_simulation.Manager.State.{Manager}
use h_axe_simulation.Manager.Handlers.{Cluster, manager_handle}

pub record Simulator (W : Type 0) : Type 0 where
  pub cluster_capacity : ResourcePack W
  pub scheduler : Scheduler W
  pub managers : List (Manager W)
  pub queue : List (Event W)
  pub cluster : Cluster W

-- `set::find` and `set::erase`
pub mem_id : ℕ → List ℕ → Bool
mem_id n [] = false
mem_id n (m ∷ ms) = if m == n then true else mem_id n ms

pub erase_id : ℕ → List ℕ → List ℕ
erase_id n [] = []
erase_id n (m ∷ ms) = let rest = erase_id n ms in if m == n then ms else m ∷ rest

module _ {W : Type 0} ⦃d : Double W⦄ where
  -- `jms_[i]->Handle`, where an index out of range has no defined behaviour.
  pub to_manager : ℤ → Event W → Simulator W → Outcome (Simulator W × List (Event W))
  unfolding manager_handle
  to_manager (negsuc n) event sim = fail undefined
  to_manager (pos n) event sim = do
    m ← or_fail (get_elem? sim.managers n) undefined
    (m', c, events) ← manager_handle event.event_type event m sim.cluster
    ok (record sim { managers = set sim.managers n m'; cluster = c }, events)

  pub to_scheduler : Event W → Simulator W → Outcome (Simulator W × List (Event W))
  unfolding scheduler_handle
  to_scheduler event sim = do
    (sch, workers, s, events) ←
        scheduler_handle event.event_type event sim.scheduler sim.cluster.workers sim.cluster.shared
    ok (
      record sim {
        scheduler = sch;
        cluster = record (sim.cluster) { workers = workers; shared = s };
      },
      events,
    )

  -- `Dispatch`
  pub dispatch : Event W → Simulator W → Outcome (Simulator W × List (Event W))
  unfolding to_manager to_scheduler
  dispatch event sim =
      if eqb_ℤ event.principal scheduler_principal
      then to_scheduler event sim
      else to_manager event.principal event sim

  -- One round of `Serve`, for an event that is off the queue.
  pub serve_event : Event W → Simulator W → Outcome (Simulator W)
  unfolding dispatch push_all mem_id erase_id
  serve_event event sim =
      if mem_id event.event_id sim.cluster.shared.invalid
      then ok (record sim {
        cluster = record (sim.cluster) {
          shared = record (sim.cluster.shared) {
            invalid = erase_id event.event_id sim.cluster.shared.invalid;
          };
        };
      })
      else (do
        (sim', events) ← dispatch event sim
        ok (record sim' { queue = push_all sim'.queue events }))

  -- `Serve`
  unfoldable pub serve : ℕ → Simulator W → Outcome (Simulator W)
  unfolding serve_event top_pop
  serve zero sim = elim (top_pop sim.queue) [ none ↦ ok sim | some _ ↦ fail no_fuel ]
  serve (suc fuel) sim = elim (top_pop sim.queue) [
    | none ↦ ok sim
    | some (event, rest) ↦ do
      sim' ← serve_event event (record sim { queue = rest })
      serve fuel sim'
  ]

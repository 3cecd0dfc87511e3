-- ===== src/Simulator/Returns.antt =====
-- src/simulator.h: that a round of `Serve` does not abort in the scheduler.
use mathlib.Core.Path.{subst}
use h_axe_simulation.Prelude.{
  Bool, ℕ, suc, ◌≡◌, refl, sym, ap, ◌∙◌, inl, inr, true, List, [], ◌∷◌, some, ok, arith, or_fail,
  undefined, Ensures, Ensures-bind, Ensures-ok, Ensures-if, Bool-cases, List-cases, get_elem?,
  length,
}
use h_axe_simulation.Prelude.Int.{ℤ, pos, negsuc, eqb_ℤ}
use h_axe_simulation.Number.{Double}
use h_axe_simulation.Event.{Event, EventType, Members, scheduler_principal, top_pop}
use h_axe_simulation.Event.Classes.{Carries, HasMembers}
use h_axe_simulation.Job.{Job}
use h_axe_simulation.Placement.{PlacementName}
use h_axe_simulation.Placement.Returns.{Returns, Returns-result, IsInBook}
use h_axe_simulation.Worker.State.{Worker}
use h_axe_simulation.Worker.Machine.{init_worker}
use h_axe_simulation.Manager.Handlers.{manager_handle}
use h_axe_simulation.Scheduler.{scheduler_handle}
use h_axe_simulation.Scheduler.Algorithm.{SameAlgorithm, scheduler_handle-SameAlgorithm}
use h_axe_simulation.Scheduler.Returns.{IsForScheduler, handler-Returns}
use h_axe_simulation.Effect.Sized.{Sized-IsEffect}
use h_axe_simulation.Simulator.{Simulator, mem_id, dispatch, to_manager, to_scheduler, serve_event}
use h_axe_simulation.Simulator.Effects.{Dispatches, dispatch-Dispatches}
use h_axe_simulation.Simulator.Events.{top_pop-All, run-HasMembers}
use h_axe_simulation.Simulator.Reach.{Step, Reaches}
use h_axe_simulation.Simulator.Start.{start, init_workers, add_job_ids, make_users, count_users}

module _ {W : Type 0} ⦃d : Double W⦄ where
  abbrev DispatchedBook : Simulator W → Simulator W × List (Event W) → Type 0
  DispatchedBook sim r = r.0.scheduler.algorithm ≡ sim.scheduler.algorithm

  to_manager-DispatchedBook :
      (i : ℤ) (event : Event W) (sim : Simulator W)
      → Ensures (DispatchedBook sim) (to_manager i event sim)
  unfolding to_manager
  to_manager-DispatchedBook (negsuc n) event sim = tt
  to_manager-DispatchedBook (pos n) event sim =
      Ensures-bind (DispatchedBook sim) (or_fail (get_elem? sim.managers n) undefined) _ (λ m e.
        Ensures-bind (DispatchedBook sim) (manager_handle event.event_type event m sim.cluster) _
          (λ r g. refl))

  to_scheduler-DispatchedBook :
      (event : Event W) (sim : Simulator W) → Ensures (DispatchedBook sim) (to_scheduler event sim)
  unfolding to_scheduler
  to_scheduler-DispatchedBook event sim =
      let ws = sim.cluster.workers in
      let s = sim.cluster.shared in
      Ensures-bind (DispatchedBook sim) (scheduler_handle event.event_type event sim.scheduler ws s)
        _
        (λ r g.
          Ensures-ok (SameAlgorithm event sim.scheduler ws s) _
            (scheduler_handle-SameAlgorithm event sim.scheduler ws s) g)

  dispatch-DispatchedBook :
      (event : Event W) (sim : Simulator W) → Ensures (DispatchedBook sim) (dispatch event sim)
  unfolding dispatch
  dispatch-DispatchedBook event sim =
      Ensures-if (DispatchedBook sim) (eqb_ℤ event.principal scheduler_principal)
        (to_scheduler event sim) (to_manager event.principal event sim)
        (λ a. to_scheduler-DispatchedBook event sim)
        (λ a. to_manager-DispatchedBook event.principal event sim)

  module _ (n : ℕ) (name : PlacementName) where
    -- The numbers of workers and the algorithm are those of the start.
    abbrev IsSetUp : Simulator W → Type 0
    IsSetUp sim = (length sim.cluster.workers ≡ n) × (sim.scheduler.algorithm ≡ name)

    serve_event-IsSetUp :
        (event : Event W) (sim : Simulator W)
        → IsSetUp sim
        → Ensures IsSetUp (serve_event event sim)
    unfolding serve_event
    serve_event-IsSetUp event sim h =
        elim (Bool-cases (mem_id event.event_id sim.cluster.shared.invalid)) [
          | inl a ↦ rw a h
          | inr a ↦ rw a (
              Ensures-bind IsSetUp (dispatch event sim) _ (λ r e.
                let (size, same) =
                  Ensures-ok (Dispatches Sized-IsEffect sim) _
                    (dispatch-Dispatches Sized-IsEffect event sim) e in
                (
                  size ∙ h.0,
                  Ensures-ok (DispatchedBook sim) _ (dispatch-DispatchedBook event sim) e ∙ h.1,
                )))
        ]

    Reaches-IsSetUp : (s t : Simulator W) → Reaches s t → IsSetUp s → IsSetUp t
    Reaches-IsSetUp s t Reaches.starts h = h
    Reaches-IsSetUp s t (Reaches.later {s = u} r (Step.serves event rest sim' e g)) h =
        Ensures-ok IsSetUp _
          (serve_event-IsSetUp event (record u { queue = rest }) (Reaches-IsSetUp s u r h)) g

  init_workers-length :
      (i : ℕ) (ws : List (Worker W))
      → Ensures (λ (r : List (Worker W)). length r ≡ length ws) (init_workers i ws)
  unfolding init_workers
  init_workers-length i [] = refl
  init_workers-length i (w ∷ ws) = Ensures-bind _ (init_worker (pos i) w) _ (λ w' e.
      Ensures-bind _ (init_workers (suc i) ws) _ (λ ws' g.
        ap suc (Ensures-ok _ (init_workers (suc i) ws) (init_workers-length (suc i) ws) g)))

  start-IsSetUp :
      (yarn : Bool) (name : PlacementName) (workers : List (Worker W)) (jobs : List (Job W))
      (draw : ℕ → W → W)
      → Ensures (IsSetUp (length workers) name) (start yarn name workers jobs draw)
  unfolding start
  start-IsSetUp yarn name workers jobs draw =
      Ensures-bind (IsSetUp (length workers) name) (init_workers 0 workers) _ (λ workers' e1.
        Ensures-bind (IsSetUp (length workers) name)
          (add_job_ids jobs (make_users (count_users jobs (pos 0)))) _
          (λ users e2.
            (Ensures-ok _ (init_workers 0 workers) (init_workers-length 0 workers) e1, refl)))

  -- An event of one of the scheduler's types goes to the scheduler.
  to_whom :
      (kind : EventType) (principal : ℤ) (members : Members W)
      → Carries kind principal members
      → IsForScheduler kind
      → principal ≡ scheduler_principal
  to_whom EventType.new_job principal (Members.submitted_job job) h k = h
  to_whom EventType.new_task_req principal (Members.request req) h k = h
  to_whom EventType.resource_available principal Members.nothing h k = h
  to_whom EventType.job_finish principal (Members.finished_job i t) h k = h
  to_whom EventType.new_job principal _ h k = absurd h
  to_whom EventType.new_task_req principal _ h k = absurd h
  to_whom EventType.resource_available principal _ h k = absurd h
  to_whom EventType.job_finish principal _ h k = absurd h
  to_whom EventType.task_finish principal _ h k = absurd k
  to_whom EventType.job_admission principal _ h k = absurd k
  to_whom EventType.placement_decision principal _ h k = absurd k

  serve_event-Returns :
      (event : Event W) (sim : Simulator W) (w : Worker W) (ws : List (Worker W))
      → sim.cluster.workers ≡ w ∷ ws
      → IsInBook W sim.scheduler.algorithm
      → HasMembers event
      → IsForScheduler event.event_type
      → Returns (serve_event event sim)
  unfolding serve_event dispatch to_scheduler
  serve_event-Returns event sim w ws there book h k =
      let whom = to_whom event.event_type event.principal event.members h k in
      let test : eqb_ℤ event.principal scheduler_principal ≡ true = rw whom refl in
      let (r, ran) =
        Returns-result
          (scheduler_handle event.event_type event sim.scheduler (w ∷ ws) sim.cluster.shared)
          (handler-Returns w ws sim.cluster.shared event sim.scheduler book event.event_type
            event.members refl h k) in
      elim (Bool-cases (mem_id event.event_id sim.cluster.shared.invalid)) [
        | inl a ↦ rw a tt
        | inr a ↦ simp (a, test, there, ran) tt
      ]

-- In every state that a simulation with a worker or more, under FIFO or TETRIS, reaches from its start: if
-- the top of the queue is an event that the scheduler handles, it is served without an abort, which is
-- another round. For TETRIS the order on products must be irreflexive and transitive.
pub run-serves :
    {W : Type 0} ⦃d : Double W⦄ (yarn : Bool) (algorithm : PlacementName) (worker : Worker W)
    (workers : List (Worker W)) (jobs : List (Job W)) (draw : ℕ → W → W) (first s : Simulator W)
    (event : Event W) (rest : List (Event W))
    → IsInBook W algorithm
    → start yarn algorithm (worker ∷ workers) jobs draw ≡ ok first
    → Reaches first s
    → top_pop s.queue ≡ some (event, rest)
    → IsForScheduler event.event_type
    → (t : Simulator W) × Step s t
run-serves yarn algorithm worker workers jobs draw first s event rest book e reach top kind =
    let ready = Reaches-IsSetUp (suc (length workers)) algorithm first s reach (
      Ensures-ok (IsSetUp (suc (length workers)) algorithm) _
        (start-IsSetUp yarn algorithm (worker ∷ workers) jobs draw) e) in
    let (has, others) =
      top_pop-All HasMembers s.queue rest event top
        (run-HasMembers yarn algorithm (worker ∷ workers) jobs draw first s e reach) in
    elim (List-cases s.cluster.workers) [
      | inl none_left ↦
          (let empty : length s.cluster.workers ≡ 0 = rw none_left refl in
            absurd (omega (arith, ready.0, empty)))
      | inr (w, ws, there) ↦
          let (t, served) = Returns-result (serve_event event (record s { queue = rest })) (
            serve_event-Returns event (record s { queue = rest }) w ws there
              (subst (IsInBook _) (sym ready.1) book) has kind) in
          (t, Step.serves event rest t top served)
    ]

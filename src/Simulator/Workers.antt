-- ===== src/Simulator/Workers.antt =====
-- src/simulator.h: what holds of the workers in every state of a run.
use h_axe_simulation.Prelude.{
  Bool, ℕ, suc, ◌≡◌, inl, inr, List, [], ◌∷◌, ok, Ensures, Ensures-bind, Ensures-ok, Bool-cases,
  All,
}
use h_axe_simulation.Prelude.Int.{pos}
use h_axe_simulation.Number.{Double}
use h_axe_simulation.Event.{Event}
use h_axe_simulation.Job.{Job}
use h_axe_simulation.Placement.{PlacementName}
use h_axe_simulation.Worker.State.{Worker}
use h_axe_simulation.Worker.Machine.{init_worker}
use h_axe_simulation.Worker.Kept.{IsKept}
use h_axe_simulation.Worker.Fit.{IsFit}
use h_axe_simulation.Worker.Fit.Kept.{IsFit-IsKept}
use h_axe_simulation.Worker.Tidy.{IsTidy, IsTidy-IsKept}
use h_axe_simulation.Simulator.{Simulator, mem_id, dispatch, serve_event}
use h_axe_simulation.Effect.Kept.{Keeps-IsEffect}
use h_axe_simulation.Simulator.Effects.{Dispatches, dispatch-Dispatches}
use h_axe_simulation.Simulator.Reach.{Step, Reaches}
use h_axe_simulation.Simulator.Start.{start, init_workers, add_job_ids, make_users, count_users}

module _ {W : Type 0} ⦃d : Double W⦄ (P : Worker W → Type 0) (kept : IsKept P) where
  -- The workers of a state have the property.
  abbrev StateSound : Simulator W → Type 0
  StateSound sim = All P sim.cluster.workers

  serve_event-StateSound :
      (event : Event W) (sim : Simulator W)
      → StateSound sim
      → Ensures StateSound (serve_event event sim)
  unfolding serve_event
  serve_event-StateSound event sim h =
      elim (Bool-cases (mem_id event.event_id sim.cluster.shared.invalid)) [
        | inl a ↦ rw a h
        | inr a ↦ rw a (
            Ensures-bind StateSound (dispatch event sim) _ (λ (sim', events) e.
              let (keeps, same) =
                Ensures-ok (Dispatches (Keeps-IsEffect P kept) sim) _
                  (dispatch-Dispatches (Keeps-IsEffect P kept) event sim) e in
              keeps h))
      ]

  Reaches-StateSound : (s t : Simulator W) → Reaches s t → StateSound s → StateSound t
  Reaches-StateSound s t Reaches.starts h = h
  Reaches-StateSound s t (Reaches.later {s = u} r (Step.serves event rest sim' e g)) h =
      Ensures-ok StateSound _
        (serve_event-StateSound event (record u { queue = rest }) (Reaches-StateSound s u r h)) g

  init_workers-Sound :
      (i : ℕ) (ws : List (Worker W)) → All P ws → Ensures (All P) (init_workers i ws)
  unfolding init_workers
  init_workers-Sound i [] h = tt
  init_workers-Sound i (w ∷ ws) (h, hs) = Ensures-bind (All P) (init_worker (pos i) w) _ (λ w' e.
      Ensures-bind (All P) (init_workers (suc i) ws) _ (λ ws' g. (
        Ensures-ok P _ (kept.beginning (pos i) w h) e,
        Ensures-ok (All P) _ (init_workers-Sound (suc i) ws hs) g,
      )))

  start-StateSound :
      (yarn : Bool) (algorithm : PlacementName) (workers : List (Worker W)) (jobs : List (Job W))
      (draw : ℕ → W → W)
      → All P workers
      → Ensures StateSound (start yarn algorithm workers jobs draw)
  unfolding start
  start-StateSound yarn algorithm workers jobs draw h =
      Ensures-bind StateSound (init_workers 0 workers) _ (λ workers' e1.
        Ensures-bind StateSound (add_job_ids jobs (make_users (count_users jobs (pos 0)))) _
          (λ users e2. Ensures-ok (All P) _ (init_workers-Sound 0 workers h) e1))

-- In every state that a simulation reaches from its start, the record times of every worker rise and no
-- worker uses less than zero of any resource, if that holds of the workers that are loaded.
pub run-IsTidy :
    {W : Type 0} ⦃d : Double W⦄ (yarn : Bool) (algorithm : PlacementName)
    (workers : List (Worker W)) (jobs : List (Job W)) (draw : ℕ → W → W) (first s : Simulator W)
    → All IsTidy workers
    → start yarn algorithm workers jobs draw ≡ ok first
    → Reaches first s
    → All IsTidy s.cluster.workers
run-IsTidy yarn algorithm workers jobs draw first s h e reach =
    Reaches-StateSound IsTidy IsTidy-IsKept first s reach (
      Ensures-ok (StateSound IsTidy IsTidy-IsKept) _
        (start-StateSound IsTidy IsTidy-IsKept yarn algorithm workers jobs draw h) e)

-- In every state that a simulation reaches from its start, no worker uses more memory than its
-- capacity, if that holds of the workers that are loaded.
pub run-IsFit :
    {W : Type 0} ⦃d : Double W⦄ (yarn : Bool) (algorithm : PlacementName)
    (workers : List (Worker W)) (jobs : List (Job W)) (draw : ℕ → W → W) (first s : Simulator W)
    → All IsFit workers
    → start yarn algorithm workers jobs draw ≡ ok first
    → Reaches first s
    → All IsFit s.cluster.workers
run-IsFit yarn algorithm workers jobs draw first s h e reach =
    Reaches-StateSound IsFit IsFit-IsKept first s reach (
      Ensures-ok (StateSound IsFit IsFit-IsKept) _
        (start-StateSound IsFit IsFit-IsKept yarn algorithm workers jobs draw h) e)

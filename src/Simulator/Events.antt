-- ===== src/Simulator/Events.antt =====
-- src/simulator.h and src/event/*.h: the classes of the events on the queue.
use mathlib.Core.Path.{subst}
use h_axe_simulation.Prelude.{
  Bool, map, ℕ, ◌≡◌, refl, sym, inl, inr, List, [], ◌∷◌, some, ok, Ensures, Ensures-bind,
  Ensures-ok, Bool-cases, All, All-append,
}
use h_axe_simulation.Prelude.Int.{pos}
use h_axe_simulation.Number.{Double}
use h_axe_simulation.Event.{Event, event_lt, best, top_pop, push_all}
use h_axe_simulation.Event.Classes.{HasMembers}
use h_axe_simulation.Job.{Job}
use h_axe_simulation.Placement.{PlacementName}
use h_axe_simulation.Worker.State.{Worker, Shared, new_event}
use h_axe_simulation.Manager.State.{Manager, new_manager}
use h_axe_simulation.Effect.Classes.{Classed-IsEffect}
use h_axe_simulation.Simulator.{Simulator, mem_id, dispatch, serve_event}
use h_axe_simulation.Simulator.Effects.{Dispatches, dispatch-Dispatches}
use h_axe_simulation.Simulator.Reach.{Step, Reaches}
use h_axe_simulation.Simulator.Start.{
  start, new_job_events, init_workers, add_job_ids, make_users, count_users,
}

module _ {W : Type 0} ⦃d : Double W⦄ where
  -- Every event on the queue is of the class that its type stands for.
  abbrev pub QueueClassed : Simulator W → Type 0
  QueueClassed sim = All HasMembers sim.queue

  best-All :
      (P : Event W → Type 0) (e : Event W) (es : List (Event W))
      → P e
      → All P es
      → P (best e es).0 × All P (best e es).1
  unfolding best
  best-All P e [] p ps = (p, tt)
  best-All P e (x ∷ xs) p (q, ps) = elim (Bool-cases (event_lt x e)) [
    | inl h ↦ let (top, rest) = best-All P x xs q ps in rw h (top, (p, rest))
    | inr h ↦ let (top, rest) = best-All P e xs p ps in rw h (top, (q, rest))
  ]

  -- What holds of all events on the queue holds of its top and of what stays.
  pub top_pop-All :
      (P : Event W → Type 0) (queue rest : List (Event W)) (event : Event W)
      → top_pop queue ≡ some (event, rest)
      → All P queue
      → P event × All P rest
  unfolding top_pop
  top_pop-All P [] rest event e h = absurd cc
  top_pop-All P (x ∷ xs) rest event e (p, ps) =
      let (top, others) = best-All P x xs p ps in
      let same_top : (best x xs).0 ≡ event = cc in
      let same_rest : (best x xs).1 ≡ rest = cc in
      (subst P same_top top, subst (All P) same_rest others)

  serve_event-QueueClassed :
      (event : Event W) (sim : Simulator W)
      → QueueClassed sim
      → Ensures QueueClassed (serve_event event sim)
  unfolding serve_event push_all
  serve_event-QueueClassed event sim h =
      elim (Bool-cases (mem_id event.event_id sim.cluster.shared.invalid)) [
        | inl a ↦ rw a h
        | inr a ↦ rw a (
            Ensures-bind QueueClassed (dispatch event sim) _ (λ (sim', events) e.
              let (made, same) =
                Ensures-ok (Dispatches Classed-IsEffect sim) _
                  (dispatch-Dispatches Classed-IsEffect event sim) e in
              All-append HasMembers sim'.queue events (subst (All HasMembers) (sym same) h) made))
      ]

  Reaches-QueueClassed : (s t : Simulator W) → Reaches s t → QueueClassed s → QueueClassed t
  Reaches-QueueClassed s t Reaches.starts h = h
  Reaches-QueueClassed s t (Reaches.later {s = u} r (Step.serves event rest sim' e g)) h =
      let (top, others) =
        top_pop-All HasMembers u.queue rest event e (Reaches-QueueClassed s u r h) in
      Ensures-ok QueueClassed _ (serve_event-QueueClassed event (record u { queue = rest }) others)
        g

  new_job_events-HasMembers :
      (ms : List (Manager W)) (s : Shared W) → All HasMembers (new_job_events ms s).0
  unfolding new_job_events new_event
  new_job_events-HasMembers [] s = tt
  new_job_events-HasMembers (m ∷ ms) s = (refl, new_job_events-HasMembers ms _)

  start-QueueClassed :
      (yarn : Bool) (algorithm : PlacementName) (workers : List (Worker W)) (jobs : List (Job W))
      (draw : ℕ → W → W)
      → Ensures QueueClassed (start yarn algorithm workers jobs draw)
  unfolding start push_all
  start-QueueClassed yarn algorithm workers jobs draw =
      Ensures-bind QueueClassed (init_workers 0 workers) _ (λ workers' e1.
        Ensures-bind QueueClassed (add_job_ids jobs (make_users (count_users jobs (pos 0)))) _
          (λ users e2.
            new_job_events-HasMembers (map (new_manager yarn) jobs)
              (record { event_num = 0; invalid = []; draw = draw })))

-- In every state that a simulation reaches from its start, each event on the queue is of the class that
-- its type stands for, so the handler of its type casts it to the class that it is of; and its principal is
-- the scheduler if the scheduler handles its type, the job number of its task if it is the end of a task,
-- and the job number that it carries if it is an admission.
pub run-HasMembers :
    {W : Type 0} ⦃d : Double W⦄ (yarn : Bool) (algorithm : PlacementName)
    (workers : List (Worker W)) (jobs : List (Job W)) (draw : ℕ → W → W) (first s : Simulator W)
    → start yarn algorithm workers jobs draw ≡ ok first
    → Reaches first s
    → All HasMembers s.queue
run-HasMembers yarn algorithm workers jobs draw first s e reach =
    Reaches-QueueClassed first s reach
      (Ensures-ok QueueClassed _ (start-QueueClassed yarn algorithm workers jobs draw) e)

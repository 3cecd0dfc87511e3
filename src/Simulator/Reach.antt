-- ===== src/Simulator/Reach.antt =====
-- src/simulator.h: the states that a run of `Serve` goes through, and the numbers of the events on the
-- queue.
use mathlib.Core.Path.{subst}
use h_axe_simulation.Prelude.{
  Bool, map, ℕ, zero, suc, ◌≡◌, refl, sym, ◌∙◌, inl, inr, List, [], ◌∷◌, none, some, ok, Ensures,
  Ensures-bind, Ensures-ok, >>=-eq-ok, arith, Bool-cases, Option-cases,
}
use h_axe_simulation.Prelude.Int.{pos}
use h_axe_simulation.Number.{Double}
use h_axe_simulation.Event.{Event, event_lt, best, top_pop, push_all}
use h_axe_simulation.Worker.Channel.Update.{count, event_ids}
use h_axe_simulation.Job.{Job}
use h_axe_simulation.Placement.{PlacementName}
use h_axe_simulation.Worker.State.{Worker, Shared}
use h_axe_simulation.Manager.State.{Manager, new_manager}
use h_axe_simulation.Worker.Numbers.{
  IsNumbered, IsNumbered-none, IsNumbered-append, new_event-IsNumbered,
}
use h_axe_simulation.Simulator.{Simulator, mem_id, dispatch, serve_event, serve}
use h_axe_simulation.Effect.Numbers.{Numbered-IsEffect}
use h_axe_simulation.Simulator.Effects.{Dispatches, dispatch-Dispatches}
use h_axe_simulation.Simulator.Serve.{serve_empty, serve_next, serve_out_of_fuel}
use h_axe_simulation.Simulator.Start.{
  start, new_job_events, init_workers, add_job_ids, make_users, count_users,
}

module _ {W : Type 0} ⦃d : Double W⦄ where
  -- One round of `Serve`: the top of the queue is served.
  pub data Step (sim : Simulator W) : Simulator W → Type 0 where
    serves :
        (event : Event W) (rest : List (Event W)) (sim' : Simulator W)
        → top_pop sim.queue ≡ some (event, rest)
        → serve_event event (record sim { queue = rest }) ≡ ok sim'
        → Step sim sim'

  pub data Reaches (first : Simulator W) : Simulator W → Type 0 where
    starts : Reaches first first
    later : {s t : Simulator W} → Reaches first s → Step s t → Reaches first t

  -- The events on the queue have numbers of their own, below the count of events.
  pub IsDistinct : Simulator W → Type 0
  IsDistinct sim = IsNumbered 0 sim.cluster.shared.event_num sim.queue

  serve_event-IsDistinct :
      (event : Event W) (sim : Simulator W)
      → IsDistinct sim
      → Ensures IsDistinct (serve_event event sim)
  unfolding serve_event IsDistinct push_all
  serve_event-IsDistinct event sim h =
      elim (Bool-cases (mem_id event.event_id sim.cluster.shared.invalid)) [
        | inl a ↦ rw a h
        | inr a ↦ rw a (
            Ensures-bind IsDistinct (dispatch event sim) _ (λ (sim', events) e.
              let (made, same) =
                Ensures-ok (Dispatches Numbered-IsEffect sim) _
                  (dispatch-Dispatches Numbered-IsEffect event sim) e in
              IsNumbered-append
                (subst (λ q. IsNumbered 0 sim.cluster.shared.event_num q) (sym same) h) made))
      ]

  best-count :
      (n : ℕ) (e : Event W) (es : List (Event W))
      → count n (event_ids ((best e es).0 ∷ (best e es).1)) ≡ count n (event_ids (e ∷ es))
  unfolding best
  best-count n e [] = refl
  best-count n e (x ∷ xs) = elim (Bool-cases (event_lt x e)) [
    | inl h ↦ let ih = best-count n x xs in rw h (omega arith)
    | inr h ↦ let ih = best-count n e xs in rw h (omega arith)
  ]

  -- What stays on the queue under its top stays distinct.
  top_pop-IsNumbered :
      (m : ℕ) (queue rest : List (Event W)) (event : Event W)
      → top_pop queue ≡ some (event, rest)
      → IsNumbered 0 m queue
      → IsNumbered 0 m rest
  unfolding top_pop
  top_pop-IsNumbered m [] rest event e h = absurd cc
  top_pop-IsNumbered m (x ∷ xs) rest event e h =
      let same : (best x xs).1 ≡ rest = cc in
      subst (IsNumbered 0 m) same
        (record { grows = h.grows; once = λ n. omega (arith, h.once n, best-count n x xs) })

  Step-IsDistinct : (s t : Simulator W) → Step s t → IsDistinct s → IsDistinct t
  unfolding IsDistinct
  Step-IsDistinct s t (Step.serves event rest sim' e g) h =
      Ensures-ok IsDistinct _
        (serve_event-IsDistinct event (record s { queue = rest })
          (top_pop-IsNumbered s.cluster.shared.event_num s.queue rest event e h))
        g

  Reaches-IsDistinct : (s t : Simulator W) → Reaches s t → IsDistinct s → IsDistinct t
  Reaches-IsDistinct s t Reaches.starts h = h
  Reaches-IsDistinct s t (Reaches.later {s = u} r st) h =
      Step-IsDistinct u t st (Reaches-IsDistinct s u r h)

  stops :
      (n : ℕ) (first s r : Simulator W)
      → Reaches first s
      → serve n s ≡ ok r
      → top_pop s.queue ≡ none
      → Reaches first r × (top_pop r.queue ≡ none)
  stops n first s r reach e h =
      let same : s ≡ r = let done = sym (serve_empty n s h) ∙ e in cc in
      subst (λ (t : Simulator W). Reaches first t × (top_pop t.queue ≡ none)) same (reach, h)

  serve-rounds :
      (n : ℕ) (first s r : Simulator W)
      → Reaches first s
      → serve n s ≡ ok r
      → Reaches first r × (top_pop r.queue ≡ none)
  serve-rounds zero first s r reach e = elim (Option-cases (top_pop s.queue)) [
    | inl h ↦ stops 0 first s r reach e h
    | inr ((event, rest), h) ↦ absurd (let stuck = serve_out_of_fuel s event rest h in cc)
  ]
  serve-rounds (suc m) first s r reach e = elim (Option-cases (top_pop s.queue)) [
    | inl h ↦ stops (suc m) first s r reach e h
    | inr ((event, rest), h) ↦
        let (t, served, e') =
          >>=-eq-ok (serve_event event (record s { queue = rest })) (serve m)
            (sym (serve_next m s event rest h) ∙ e) in
        serve-rounds m first t r (Reaches.later reach (Step.serves event rest t h served)) e'
  ]

  new_job_events-IsNumbered :
      (ms : List (Manager W)) (s : Shared W)
      → IsNumbered s.event_num (new_job_events ms s).1.event_num (new_job_events ms s).0
  unfolding new_job_events
  new_job_events-IsNumbered [] s = IsNumbered-none (omega arith)
  new_job_events-IsNumbered (m ∷ ms) s =
      IsNumbered-append (new_event-IsNumbered _ _ _ _ _ s) (new_job_events-IsNumbered ms _)

  start-IsDistinct :
      (yarn : Bool) (algorithm : PlacementName) (workers : List (Worker W)) (jobs : List (Job W))
      (draw : ℕ → W → W)
      → Ensures IsDistinct (start yarn algorithm workers jobs draw)
  unfolding start IsDistinct push_all
  start-IsDistinct yarn algorithm workers jobs draw =
      Ensures-bind IsDistinct (init_workers 0 workers) _ (λ workers' e1.
        Ensures-bind IsDistinct (add_job_ids jobs (make_users (count_users jobs (pos 0)))) _
          (λ users e2.
            new_job_events-IsNumbered (map (new_manager yarn) jobs)
              (record { event_num = 0; invalid = []; draw = draw })))

-- A run of `Serve` that returns has gone through rounds that each serve the top of the queue, and stops
-- in a state from which there is no other round.
pub serve-Reaches :
    {W : Type 0} ⦃d : Double W⦄ (n : ℕ) (s r : Simulator W)
    → serve n s ≡ ok r
    → Reaches s r × (top_pop r.queue ≡ none)
serve-Reaches n s r e = serve-rounds n s s r Reaches.starts e

-- In every state that a simulation reaches from its start, the events on the queue have numbers of their
-- own, below the count of events: no two have one number, and no event that is made later gets a number
-- that waits on the queue.
pub run-IsDistinct :
    {W : Type 0} ⦃d : Double W⦄ (yarn : Bool) (algorithm : PlacementName)
    (workers : List (Worker W)) (jobs : List (Job W)) (draw : ℕ → W → W) (first s : Simulator W)
    → start yarn algorithm workers jobs draw ≡ ok first
    → Reaches first s
    → IsDistinct s
run-IsDistinct yarn algorithm workers jobs draw first s e reach =
    Reaches-IsDistinct first s reach
      (Ensures-ok IsDistinct _ (start-IsDistinct yarn algorithm workers jobs draw) e)

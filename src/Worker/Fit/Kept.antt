-- ===== src/Worker/Fit/Kept.antt =====
-- src/worker: the memory of a worker, whatever is called.
use h_axe_simulation.Prelude.{
  inl, inr, List, Outcome, ok, ◌>>=◌, Bool-cases, Ensures, Ensures-bind, Ensures-ok, Ensures-if,
}
use h_axe_simulation.Prelude.Int.{ℤ}
use h_axe_simulation.Number.{Double, zero_double}
use h_axe_simulation.Resource.{ResourcePack, add, fit_in}
use h_axe_simulation.Event.{Event}
use h_axe_simulation.Worker.State.{Worker, Shared}
use h_axe_simulation.Worker.Machine.{
  place_new_task, task_finish, note_usage, utilization_record, subgraph_finish, reserve,
  reservation_limit, init_worker,
}
use h_axe_simulation.Worker.Kept.{IsKept}
use h_axe_simulation.Worker.Fit.{IsFit, FitAfter, place_by_type-FitAfter, finish_by_type-FitAfter}

module _ {W : Type 0} ⦃d : Double W⦄ where
  note_usage-IsFit : (time : W) (w : Worker W) → IsFit w → Ensures IsFit (note_usage time w)
  unfolding note_usage
  note_usage-IsFit time w h = Ensures-bind IsFit (utilization_record time w) _ (λ r e. h)

  noted-FitAfter :
      (time : W) (m : Outcome (Worker W × Shared W × List (Event W)))
      → Ensures FitAfter m
      → Ensures FitAfter (do (w1, s', events) ← m; w2 ← note_usage time w1; ok (w2, s', events))
  noted-FitAfter time m h = Ensures-bind FitAfter m _ (λ (w1, s1, events) e.
      let fit = Ensures-ok FitAfter m h e in
      Ensures-bind FitAfter (note_usage time w1) _
        (λ w2 g. Ensures-ok IsFit _ (note_usage-IsFit time w1 fit) g))

  reserve-IsFit : (req : ResourcePack W) (w : Worker W) → IsFit w → IsFit ((reserve req w).0)
  unfolding reserve
  reserve-IsFit req w h = elim (Bool-cases (fit_in (add w.reservation req) (reservation_limit w))) [
    | inl a ↦ rw a h
    | inr a ↦ rw a h
  ]

  subgraph_finish-IsFit :
      (time mem : W) (w : Worker W) → IsFit w → Ensures IsFit (subgraph_finish time mem w)
  unfolding subgraph_finish
  subgraph_finish-IsFit time mem w h =
      Ensures-if IsFit w.is_worker _ (ok w) (λ a. note_usage-IsFit time _ h) (λ a. h)

  init_worker-IsFit : (i : ℤ) (w : Worker W) → IsFit w → Ensures IsFit (init_worker i w)
  unfolding init_worker
  init_worker-IsFit i w h =
      Ensures-if IsFit w.is_worker _ _ (λ a. h)
        (λ a. Ensures-bind IsFit (note_usage zero_double w) _ (λ v e. tt))

  pub IsFit-IsKept : IsKept {W = W} IsFit
  unfolding place_new_task task_finish
  IsFit-IsKept = record {
    placing = λ time task w s h.
        noted-FitAfter time _ (place_by_type-FitAfter task.resource_type time task w s h);
    finishing = λ time event_id task w s h.
        noted-FitAfter time _ (finish_by_type-FitAfter task.resource_type time event_id task w s h);
    ending = subgraph_finish-IsFit;
    reserving = reserve-IsFit;
    beginning = init_worker-IsFit;
  }

-- ===== src/Worker/Tidy.antt =====
-- src/worker: the records and the usage of a worker, whatever is called.
use h_axe_simulation.Prelude.{
  ◌≡◌, true, inl, inr, All, Ensures, Ensures-bind, Ensures-map, Ensures-if, Bool-cases, ok,
}
use h_axe_simulation.Prelude.Int.{ℤ}
use h_axe_simulation.Number.{Double, ◌⊖◌, le, zero_double}
use h_axe_simulation.Resource.{ResourcePack, all_types, by_index, add, fit_in}
use h_axe_simulation.RecordMap.Rows.{IsRising}
use h_axe_simulation.Worker.State.{Worker}
use h_axe_simulation.Worker.Machine.{
  note_usage, subgraph_finish, reserve, init_worker, reservation_limit, place_new_task, task_finish,
}
use h_axe_simulation.Worker.Records.{note_usage-IsRecorded, step-IsRecorded}
use h_axe_simulation.Worker.Kept.{IsKept}

module _ {W : Type 0} ⦃d : Double W⦄ where
  -- The times of the records rise, and no resource is used less than zero.
  abbrev pub IsTidy : Worker W → Type 0
  IsTidy w = IsRising w.records × All (λ i. le zero_double (by_index w.usage i) ≡ true) all_types

  reserve-IsTidy : (req : ResourcePack W) (w : Worker W) → IsTidy w → IsTidy ((reserve req w).0)
  unfolding reserve
  reserve-IsTidy req w h =
      elim (Bool-cases (fit_in (add w.reservation req) (reservation_limit w))) [
        | inl a ↦ rw a h
        | inr a ↦ rw a h
      ]

  subgraph_finish-IsTidy :
      (time mem : W) (w : Worker W) → IsTidy w → Ensures IsTidy (subgraph_finish time mem w)
  unfolding subgraph_finish
  subgraph_finish-IsTidy time mem w h =
      let given : Worker W = record w {
        reservation = record (w.reservation) { memory_of = w.reservation.memory_of ⊖ mem };
      } in
      Ensures-if IsTidy w.is_worker (note_usage time given) (ok w)
        (λ a.
          Ensures-map (note_usage time given) (note_usage-IsRecorded time given (h.0))
            (λ v r. (r.rising, r.no_debt)))
        (λ a. h)

  init_worker-IsTidy : (i : ℤ) (w : Worker W) → IsTidy w → Ensures IsTidy (init_worker i w)
  unfolding init_worker
  init_worker-IsTidy i w h =
      Ensures-if IsTidy w.is_worker _ _ (λ a. h)
        (λ a. Ensures-bind IsTidy (note_usage zero_double w) _ (λ v e. tt))

  pub IsTidy-IsKept : IsKept IsTidy
  IsTidy-IsKept = record {
    placing = λ time task w s h.
        Ensures-map (place_new_task time task w s) (step-IsRecorded time 0 task w s (h.0)).0
          (λ r p. (p.rising, p.no_debt));
    finishing = λ time event_id task w s h.
        Ensures-map (task_finish time event_id task w s)
          (step-IsRecorded time event_id task w s (h.0)).1 (λ r p. (p.rising, p.no_debt));
    ending = subgraph_finish-IsTidy;
    reserving = reserve-IsTidy;
    beginning = init_worker-IsTidy;
  }

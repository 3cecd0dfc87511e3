-- ===== src/Worker/Records.antt =====
-- src/worker/worker_abstract.h: what PlaceNewTask and TaskFinish put down in `records_`.
use mathlib.Core.Path.{subst}
use h_axe_simulation.Prelude.{
  ℕ, ◌≡◌, refl, sym, true, false, inl, inr, ◌⊎◌, All, List, [], ◌∷◌, map, Outcome, ok, fail,
  check_failed, ◌>>=◌, Bool-cases, Ensures, Ensures-bind, Ensures-ok, if◌then◌else◌,
}
use h_axe_simulation.Prelude.Int.{ℤ, pos, eqb_ℤ}
use h_axe_simulation.Number.{Double, ◌⊗◌, ◌⊘◌, le, whole, zero_double}
use h_axe_simulation.Resource.{ResourceType, all_types, ResourcePack, by_index}
use h_axe_simulation.RecordMap.{RecordMap}
use h_axe_simulation.RecordMap.Rows.{IsRising}
use h_axe_simulation.RecordMap.Entries.{entry, kept, insert_entry_lem}
use h_axe_simulation.Job.{ShardTask}
use h_axe_simulation.Event.{Event}
use h_axe_simulation.Worker.State.{Worker, Shared}
use h_axe_simulation.Worker.Machine.{
  place_by_type, finish_by_type, place_new_task, task_finish, note_usage, shares,
  utilization_record, init_worker,
}
use h_axe_simulation.Worker.Frame.{SameAfter, place_by_type-Same, finish_by_type-Same}

module _ {W : Type 0} ⦃d : Double W⦄ where
  -- The shares of its resources that a worker uses.
  abbrev pub shares_of : Worker W → List W
  shares_of w = map (λ i. by_index w.usage i ⊘ by_index w.capacity i) all_types

  abbrev pub tick_of : W → ℤ
  tick_of time = d.truncate (time ⊗ whole (pos 20))

  shares-cases :
      (usage capacity : ResourcePack W) (is : List ResourceType)
      → ((shares usage capacity is ≡ ok (map (λ i. by_index usage i ⊘ by_index capacity i) is))
          × All (λ i. le zero_double (by_index usage i) ≡ true) is)
        ⊎ (shares usage capacity is ≡ fail check_failed)
  unfolding shares
  shares-cases usage capacity [] = inl (refl, tt)
  shares-cases usage capacity (i ∷ is) = elim (Bool-cases (le zero_double (by_index usage i))) [
    | inr a ↦ inr (rw a refl)
    | inl a ↦ elim (shares-cases usage capacity is) [
      | inr e ↦ inr (rw (a, e) refl)
      | inl (e, h) ↦ inl (rw (a, e) refl, (a, h))
    ]
  ]

  -- What a worker is after it has put down an entry at a time in the records `m`.
  pub record IsRecorded (time : W) (m : RecordMap (List W)) (w : Worker W) : Type 0 where
    pub rising : IsRising w.records
    pub noted :
        (s : ℤ)
        → entry s w.records ≡ (
            if eqb_ℤ s (tick_of time)
            then kept (entry (tick_of time) m) (shares_of w)
            else entry s m)
    pub no_debt : All (λ i. le zero_double (by_index w.usage i) ≡ true) all_types

  pub note_usage-IsRecorded :
      (time : W) (w : Worker W)
      → IsRising w.records
      → Ensures (IsRecorded time w.records) (note_usage time w)
  unfolding note_usage utilization_record
  note_usage-IsRecorded time w rise = elim (shares-cases w.usage w.capacity all_types) [
    | inr e ↦ rw e tt
    | inl (e, h) ↦
        let put = λ (s : ℤ). insert_entry_lem (tick_of time) s (shares_of w) w.records rise in
        rw e record { rising = (put (pos 0)).0; noted = λ s. (put s).1; no_debt = h }
  ]

  abbrev IsRecordedAfter : W → Worker W → Worker W × Shared W × List (Event W) → Type 0
  IsRecordedAfter time w r = IsRecorded time w.records r.0

  -- The usage is noted after a step that leaves the records alone.
  noted_last :
      (time : W) (w : Worker W) (m : Outcome (Worker W × Shared W × List (Event W)))
      → IsRising w.records
      → Ensures (SameAfter w) m
      → Ensures
          (IsRecordedAfter time w)
          (do (w1, s', events) ← m; w2 ← note_usage time w1; ok (w2, s', events))
  noted_last time w m rise h = Ensures-bind (IsRecordedAfter time w) m _ (λ (w1, s1, events) e.
      let same : w1.records ≡ w.records = Ensures-ok (SameAfter w) m h e in
      let noted = note_usage-IsRecorded time w1 (subst IsRising (sym same) rise) in
      Ensures-bind (IsRecordedAfter time w) (note_usage time w1) _ (λ w2 g.
        subst (λ l. IsRecorded time l w2) same
          (Ensures-ok (IsRecorded time w1.records) (note_usage time w1) noted g)))

  -- The check in `Init` of a node manager.
  pub init_worker-fails :
      (i : ℤ) (w : Worker W) → w.is_worker ≡ false → init_worker i w ≡ fail check_failed
  unfolding init_worker note_usage utilization_record
  init_worker-fails i w h = elim (shares-cases w.usage w.capacity all_types) [
    | inl (e, _) ↦ rw (h, e) refl
    | inr e ↦ rw (h, e) refl
  ]

-- When a task is placed on a worker, or ends there, without an abort, and the times of the worker's
-- records rise, they rise afterwards; the tick of the time has the shares that the worker uses then,
-- unless it had an entry, which stays; the other ticks keep what they had; and no resource is used less
-- than zero.
pub step-IsRecorded :
    {W : Type 0} ⦃d : Double W⦄ (time : W) (event_id : ℕ) (task : ShardTask W) (w : Worker W)
    (s : Shared W)
    → IsRising w.records
    → Ensures
        (λ (r : Worker W × Shared W × List (Event W)). IsRecorded time w.records r.0)
        (place_new_task time task w s)
      × Ensures
          (λ (r : Worker W × Shared W × List (Event W)). IsRecorded time w.records r.0)
          (task_finish time event_id task w s)
unfolding place_new_task task_finish
step-IsRecorded time event_id task w s rise = (
  noted_last time w (place_by_type task.resource_type time task w s) rise
      (place_by_type-Same task.resource_type time task w s),
  noted_last time w (finish_by_type task.resource_type time event_id task w s) rise
      (finish_by_type-Same task.resource_type time event_id task w s),
)

-- ===== src/Player/Entries.antt =====
-- src/play_back/player.h: what GenerateRecords puts down for each worker.
use mathlib.Core.Path.{subst}
use h_axe_simulation.Prelude.{
  ℕ, zero, suc, ◌≡◌, refl, sym, ap, ◌∙◌, inl, inr, List, [], ◌∷◌, All, Bool-cases, some, ok,
  >>=-eq-ok, or_fail-eq-ok, or_fail, out_of_range, set, get_elem?, All-set, All-get, All-replicate,
  length,
}
use h_axe_simulation.Prelude.Int.{ℤ, pos, negsuc, eqb_ℤ, eqb_ℤ_iff}
use h_axe_simulation.Number.{Double}
use h_axe_simulation.Resource.{ResourcePack, empty_pack}
use h_axe_simulation.RecordMap.{insert_entry}
use h_axe_simulation.RecordMap.Rows.{IsRising}
use h_axe_simulation.RecordMap.Entries.{entry, insert-IsRising, entry-insert}
use h_axe_simulation.Player.{RecordEvent, earlier, pop_record_event}
use h_axe_simulation.Player.Records.{
  Records, Snapshots, add_record, record_event, record_loop, generate_record, generate_records,
  first_records, workers_of,
}

module _ {W : Type 0} ⦃d : Double W⦄ where
  abbrev pub StartsAtZero : Records W → Type 0
  StartsAtZero m = IsRising m × (entry (pos 0) m ≡ some empty_pack)

  insert-StartsAtZero :
      (t : ℤ) (r : ResourcePack W) (m : Records W)
      → StartsAtZero m
      → StartsAtZero (insert_entry t r m)
  insert-StartsAtZero t r m (h, e) = (
    insert-IsRising t r m h,
    entry-insert t (pos 0) r m h ∙ elim (Bool-cases (eqb_ℤ (pos 0) t)) [
      | inr c ↦ rw c e
      | inl c ↦
          let same : pos 0 ≡ t = (eqb_ℤ_iff (pos 0) t).0 c in
          let held : entry t m ≡ some empty_pack = ap (λ s. entry s m) (sym same) ∙ e in
          rw (c, held) refl
    ],
  )

  add_record-StartsAtZero :
      (w t : ℤ) (r : ResourcePack W) (ms ms' : List (Records W))
      → All StartsAtZero ms
      → add_record w t r ms ≡ ok ms'
      → All StartsAtZero ms'
  unfolding add_record
  add_record-StartsAtZero (negsuc k) t r ms ms' h e = absurd cc
  add_record-StartsAtZero (pos k) t r ms ms' h e =
      let (m, found, e') = >>=-eq-ok (or_fail (get_elem? ms k) out_of_range) _ e in
      let held = All-get StartsAtZero ms k h (or_fail-eq-ok (get_elem? ms k) out_of_range found) in
      let put = All-set StartsAtZero ms k _ (insert-StartsAtZero t r m held) h in
      let same : set ms k (insert_entry t r m) ≡ ms' = cc in subst (All StartsAtZero) same put

  record_loop-StartsAtZero :
      (n : ℕ) (queue : List (RecordEvent W)) (snaps : Snapshots W) (ms : List (Records W))
      (snaps' : Snapshots W) (ms' : List (Records W))
      → All StartsAtZero ms
      → record_loop n queue snaps ms ≡ ok (snaps', ms')
      → All StartsAtZero ms'
  unfolding record_loop record_event pop_record_event
  record_loop-StartsAtZero n [] snaps ms snaps' ms' h e =
      let same : ms ≡ ms' = cc in subst (All StartsAtZero) same h
  record_loop-StartsAtZero zero (x ∷ xs) snaps ms snaps' ms' h e = absurd cc
  record_loop-StartsAtZero (suc n) (x ∷ xs) snaps ms snaps' ms' h e =
      let (top, rest) = earlier x xs in
      let ((snaps1, ms1), e1, e2) = >>=-eq-ok (record_event top snaps ms) _ e in
      let ((r, snaps2), e3, e4) = >>=-eq-ok (generate_record top snaps) _ e1 in
      let (ms2, e5, e6) = >>=-eq-ok (add_record top.worker_id top.time r ms) _ e4 in
      let same : ms2 ≡ ms1 = cc in
      let held = add_record-StartsAtZero top.worker_id top.time r ms ms2 h e5 in
      record_loop-StartsAtZero n rest snaps1 ms1 snaps' ms' (subst (All StartsAtZero) same held) e2

-- When the records of the workers are made without an abort, the times of each rise, and at time 0 each
-- has the entry that it was given before the first event: a worker has no load there, also where units
-- start at 0, as one always does.
pub generate_records-StartsAtZero :
    {W : Type 0} ⦃d : Double W⦄ (worker_num : ℤ) (queue : List (RecordEvent W))
    (snaps snaps' : Snapshots W) (ms : List (Records W))
    → generate_records worker_num queue snaps ≡ ok (snaps', ms)
    → All StartsAtZero ms
unfolding generate_records first_records entry
generate_records-StartsAtZero worker_num queue snaps snaps' ms e =
    record_loop-StartsAtZero (length queue) queue snaps (first_records worker_num) snaps' ms
      (All-replicate StartsAtZero (workers_of worker_num) ((pos 0, empty_pack) ∷ [])
        ((tt, tt), refl))
      e

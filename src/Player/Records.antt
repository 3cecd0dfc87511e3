-- ===== src/Player/Records.antt =====
-- src/play_back/player.h: GenerateRecord and GenerateRecords. The snapshots of the workers 0 to
-- `worker_num_` are a list, and so are their records, each a map from times in rising order.
use h_axe_simulation.Prelude.{
  ℕ, zero, suc, ◌==◌, not, List, [], ◌∷◌, Outcome, ok, fail, ◌>>=◌, ◌>>◌, check, or_fail,
  out_of_range, no_fuel, if◌then◌else◌, replicate, set, length, get_elem?,
}
use h_axe_simulation.Prelude.Int.{ℤ, pos, negsuc, eqb_ℤ}
use h_axe_simulation.Number.{Double, ◌⊕◌, ◌⊖◌, ◌⊘◌, lt, le, zero_double, one_double}
use h_axe_simulation.Resource.{ResourcePack, empty_pack}
use h_axe_simulation.RecordMap.{RecordMap, insert_entry}
use h_axe_simulation.Player.{RecordEvent, pop_record_event}

abbrev pub Snapshots : Type 0 → Type 0
Snapshots W = List (ResourcePack W)

-- `std::map<int64_t, std::vector<double>>`
abbrev pub Records : Type 0 → Type 0
Records W = RecordMap (ResourcePack W)

-- The number of rounds of `for (int i = 0; i <= worker_num_; ++i)`.
unfoldable pub workers_of : ℤ → ℕ
workers_of (pos n) = suc n
workers_of (negsuc n) = 0

module _ {W : Type 0} ⦃d : Double W⦄ where
  unfoldable pub at_least_zero : W → W
  at_least_zero x = if lt x zero_double then zero_double else x

  unfoldable pub start_load : RecordEvent W → ResourcePack W → ResourcePack W
  start_load e p =
      let taken : ResourcePack W = record p { memory_of = p.memory_of ⊕ e.memory_of } in
      if eqb_ℤ e.resource_type (pos 0)
      then record taken { cpu_of = taken.cpu_of ⊕ e.resource_request }
      else if eqb_ℤ e.resource_type (pos 1)
      then record taken { network_of = taken.network_of ⊕ (e.resource_request ⊘ e.duration) }
      else record taken { cpu_of = taken.cpu_of ⊕ one_double }

  unfoldable pub finish_load : RecordEvent W → ResourcePack W → ResourcePack W
  unfolding at_least_zero
  finish_load e p =
      let given : ResourcePack W = record p { memory_of = p.memory_of ⊖ e.memory_of } in
      if eqb_ℤ e.resource_type (pos 0)
      then record given { cpu_of = given.cpu_of ⊖ e.resource_request }
      else if eqb_ℤ e.resource_type (pos 1)
      then record given {
        network_of = at_least_zero (given.network_of ⊖ (e.resource_request ⊘ e.duration));
      }
      else record given { cpu_of = at_least_zero (given.cpu_of ⊖ one_double) }

  unfoldable pub load_of : RecordEvent W → ResourcePack W → ResourcePack W
  unfolding start_load finish_load
  load_of e p = if e.event_type == 0 then start_load e p else finish_load e p

  -- `worker_snapshot_.at(worker_id)`, changed by the event; what is returned is the new snapshot.
  unfoldable pub update_snapshot :
      RecordEvent W → Snapshots W → ℤ → Outcome (ResourcePack W × Snapshots W)
  unfolding load_of
  update_snapshot e snaps (negsuc k) = fail out_of_range
  update_snapshot e snaps (pos k) = do
    p ← or_fail (get_elem? snaps k) out_of_range
    ok (load_of e p, set snaps k (load_of e p))

  -- `GenerateRecord`
  unfoldable pub generate_record :
      RecordEvent W → Snapshots W → Outcome (ResourcePack W × Snapshots W)
  unfolding update_snapshot
  generate_record e snaps =
      check (not (le e.resource_request zero_double)) >> update_snapshot e snaps e.worker_id

  -- `worker_record_.at(event.worker_id).insert({event.time, record})`
  unfoldable pub add_record : ℤ → ℤ → ResourcePack W → List (Records W) → Outcome (List (Records W))
  unfolding insert_entry
  add_record (negsuc k) t r ms = fail out_of_range
  add_record (pos k) t r ms = do
    m ← or_fail (get_elem? ms k) out_of_range
    ok (set ms k (insert_entry t r m))

  -- One round of the loop of `GenerateRecords`.
  unfoldable pub record_event :
      RecordEvent W → Snapshots W → List (Records W) → Outcome (Snapshots W × List (Records W))
  unfolding generate_record add_record
  record_event e snaps ms = do
    (r, snaps') ← generate_record e snaps
    ms' ← add_record e.worker_id e.time r ms
    ok (snaps', ms')

  -- The loop of `GenerateRecords`, a round for each event on the queue.
  unfoldable pub record_loop :
      ℕ
      → List (RecordEvent W)
      → Snapshots W
      → List (Records W)
      → Outcome (Snapshots W × List (Records W))
  unfolding record_event pop_record_event
  record_loop n [] snaps ms = ok (snaps, ms)
  record_loop zero (e ∷ es) snaps ms = fail no_fuel
  record_loop (suc n) (e ∷ es) snaps ms = do
    (top, rest) ← or_fail (pop_record_event (e ∷ es)) no_fuel
    (snaps', ms') ← record_event top snaps ms
    record_loop n rest snaps' ms'

  -- The loop of `Init` that fills `worker_snapshot_`.
  unfoldable pub first_snapshots : ℤ → Snapshots W
  unfolding workers_of
  first_snapshots worker_num = replicate (workers_of worker_num) empty_pack

  unfoldable pub first_records : ℤ → List (Records W)
  unfolding workers_of
  first_records worker_num = replicate (workers_of worker_num) ((pos 0, empty_pack) ∷ [])

  -- `GenerateRecords`
  unfoldable pub generate_records :
      ℤ → List (RecordEvent W) → Snapshots W → Outcome (Snapshots W × List (Records W))
  unfolding record_loop first_records
  generate_records worker_num queue snaps =
      record_loop (length queue) queue snaps (first_records worker_num)

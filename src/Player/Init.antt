-- ===== src/Player/Init.antt =====
-- src/play_back/player.h: Init, which runs all parts in turn.
use h_axe_simulation.Prelude.{
  ℕ, zero, suc, List, Outcome, ok, fail, ◌>>=◌, undefined, ◌≡◌, ◌≢◌, ltb, length, replicate,
  length-set, length-replicate, arith, ◌+◌, ◌≤◌, get_elem?, or_fail, >>=-eq-ok, Bool-cases, inl,
  inr, out_of_range,
}
use h_axe_simulation.Prelude.Int.{ℤ, pos, negsuc}
use h_axe_simulation.Number.{Double}
use h_axe_simulation.Resource.{ResourcePack, empty_pack}
use h_axe_simulation.Player.{
  TaskUnit, compute_worker_num, get_start_point, fix_time_line, sort_units, generate_event,
}
use h_axe_simulation.Player.Records.{
  Records, Snapshots, first_snapshots, generate_records, workers_of,
}
use h_axe_simulation.Player.Report.{
  report_utilization, get_peak_usage, peak_loop, write_peak, peak_of,
}
use h_axe_simulation.Player.Durations.{Statistic, collect_duration_record}

-- What `Init` leaves, with the rows that it writes.
pub record Played (W : Type 0) : Type 0 where
  pub units : List (TaskUnit W)
  pub snapshots : Snapshots W
  pub records : List (Records W)
  pub rows : List (List (ResourcePack W))
  pub durations : List (List W)
  pub statistic_record : List (Statistic W)
  pub peaks : List (ResourcePack W)

module _ {W : Type 0} ⦃d : Double W⦄ where
  -- `Init`, with the units of the job record.
  pub init : List (TaskUnit W) → Outcome (Played W)
  unfolding get_start_point fix_time_line compute_worker_num first_snapshots sort_units
      generate_event generate_records report_utilization collect_duration_record get_peak_usage
  init read = do
    start ← get_start_point read
    let fixed : List (TaskUnit W) = fix_time_line start read
    worker_num ← compute_worker_num fixed
    let sorted : List (TaskUnit W) = sort_units fixed
    (snaps, ms) ← generate_records worker_num (generate_event sorted) (first_snapshots worker_num)
    rows ← report_utilization worker_num ms
    (durations, all) ← collect_duration_record sorted
    peaks ← get_peak_usage worker_num ms
    ok (record {
      units = sorted;
      snapshots = snaps;
      records = ms;
      rows = rows;
      durations = durations;
      statistic_record = all;
      peaks = peaks;
    })

  write_peak-length :
      (k : ℕ) (p : ResourcePack W) (peaks : List (ResourcePack W)) {peaks' : List (ResourcePack W)}
      → write_peak k p peaks ≡ ok peaks'
      → length peaks' ≡ length peaks
  unfolding write_peak
  write_peak-length k p peaks e = let same = length-set peaks k p in grind arith

  write_peak-beyond :
      (k : ℕ) (p : ResourcePack W) (peaks : List (ResourcePack W))
      → length peaks ≤ k
      → write_peak k p peaks ≡ fail undefined
  unfolding write_peak
  write_peak-beyond k p peaks h = ground arith

  -- The loop writes past the end of vectors that are not as long as it counts.
  peak_loop-short :
      (n k : ℕ) (ms : List (Records W)) (peaks done : List (ResourcePack W))
      → k ≤ length peaks
      → suc (length peaks) ≡ n + k
      → peak_loop n k ms peaks ≢ ok done
  unfolding peak_loop
  peak_loop-short zero k ms peaks done b h e = omega arith
  peak_loop-short (suc n) k ms peaks done b h e = elim (Bool-cases (ltb k (length peaks))) [
    | inr past ↦
        let stop = write_peak-beyond k empty_pack peaks (ground arith) in
        let (cleared, e1, _) = >>=-eq-ok (write_peak k empty_pack peaks) _ e in cc
    | inl inside ↦
        let (cleared, e1, rest) = >>=-eq-ok (write_peak k empty_pack peaks) _ e in
        let (m, e2, rest2) = >>=-eq-ok (or_fail (get_elem? ms k) out_of_range) _ rest in
        let (filled, e3, rest3) = >>=-eq-ok (write_peak k (peak_of m empty_pack) cleared) _ rest2 in
        let l1 = write_peak-length k empty_pack peaks e1 in
        let l2 = write_peak-length k (peak_of m empty_pack) cleared e3 in
        peak_loop-short n (suc k) ms filled done (ground arith) (omega arith) rest3
  ]

  -- The vectors have no place for the last worker, and a size below zero is refused.
  get_peak_usage-fails :
      (worker_num : ℤ) (ms : List (Records W)) (peaks : List (ResourcePack W))
      → get_peak_usage worker_num ms ≢ ok peaks
  unfolding get_peak_usage workers_of
  get_peak_usage-fails (negsuc n) ms peaks e = cc
  get_peak_usage-fails (pos n) ms peaks e =
      let same = length-replicate n (empty_pack {W = W}) in
      peak_loop-short (suc n) 0 ms (replicate n empty_pack) peaks (omega arith) (omega arith) e

-- No call of Init returns: where its other parts do, the peaks of the workers 0 to `worker_num_` go to
-- vectors of the size `worker_num_`, and that of the last worker is written past their end.
pub init-fails :
    {W : Type 0} ⦃d : Double W⦄ (read : List (TaskUnit W)) (result : Played W)
    → init read ≢ ok result
unfolding init
init-fails {W} read result e =
    let (start, _, e1) = >>=-eq-ok (get_start_point read) _ e in
    let fixed : List (TaskUnit W) = fix_time_line start read in
    let (worker_num, _, e2) = >>=-eq-ok (compute_worker_num fixed) _ e1 in
    let (made, _, e3) =
      >>=-eq-ok
        (generate_records worker_num (generate_event (sort_units fixed))
          (first_snapshots worker_num))
        _ e2 in
    let (rows, _, e4) = >>=-eq-ok (report_utilization worker_num made.1) _ e3 in
    let (collected, _, e5) = >>=-eq-ok (collect_duration_record (sort_units fixed)) _ e4 in
    let (peaks, e6, _) = >>=-eq-ok (get_peak_usage worker_num made.1) _ e5 in
    get_peak_usage-fails worker_num made.1 peaks e6

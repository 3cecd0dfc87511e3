-- ===== src/Player/Report.antt =====
-- src/play_back/player.h: ReportUtilization and GetPeakUsageForEachWork. A row of a report is a pack.
use h_axe_simulation.Prelude.{
  ℕ, zero, suc, List, [], ◌∷◌, Outcome, ok, fail, ◌>>=◌, or_fail, undefined, length_error,
  out_of_range, if◌then◌else◌, replicate, set, get_elem?, ltb, length,
}
use h_axe_simulation.Prelude.Int.{ℤ, pos, negsuc}
use h_axe_simulation.Number.{Double, lt}
use h_axe_simulation.Resource.{ResourcePack, empty_pack}
use h_axe_simulation.RecordMap.{report_rows}
use h_axe_simulation.Player.Records.{Records, workers_of}

module _ {W : Type 0} where
  report_loop : ℕ → ℕ → List (Records W) → Outcome (List (List (ResourcePack W)))
  unfolding report_rows
  report_loop zero k ms = ok []
  report_loop (suc n) k ms = do
    m ← or_fail (get_elem? ms k) out_of_range
    rest ← report_loop n (suc k) ms
    ok (report_rows m ∷ rest)

  -- `ReportUtilization`: a file for each worker.
  unfoldable pub report_utilization : ℤ → List (Records W) → Outcome (List (List (ResourcePack W)))
  unfolding report_loop workers_of
  report_utilization worker_num ms = report_loop (workers_of worker_num) 0 ms

module _ {W : Type 0} ⦃d : Double W⦄ where
  pub above : W → W → W
  above x peak = if lt peak x then x else peak

  -- The inner loop of `GetPeakUsageForEachWork`.
  pub peak_of : Records W → ResourcePack W → ResourcePack W
  unfolding above
  peak_of [] peak = peak
  peak_of ((time, r) ∷ m) peak = peak_of m (record peak {
    cpu_of = above r.cpu_of peak.cpu_of;
    memory_of = above r.memory_of peak.memory_of;
    disk_of = above r.disk_of peak.disk_of;
    network_of = above r.network_of peak.network_of;
  })

  -- A write to a vector by `operator[]`.
  unfoldable pub write_peak :
      ℕ → ResourcePack W → List (ResourcePack W) → Outcome (List (ResourcePack W))
  write_peak k p peaks = if ltb k (length peaks) then ok (set peaks k p) else fail undefined

  unfoldable pub peak_loop :
      ℕ → ℕ → List (Records W) → List (ResourcePack W) → Outcome (List (ResourcePack W))
  unfolding peak_of write_peak
  peak_loop zero k ms peaks = ok peaks
  peak_loop (suc n) k ms peaks = do
    cleared ← write_peak k empty_pack peaks
    m ← or_fail (get_elem? ms k) out_of_range
    filled ← write_peak k (peak_of m empty_pack) cleared
    peak_loop n (suc k) ms filled

  -- `GetPeakUsageForEachWork`; the four vectors, of one length, are one of packs, and have been empty.
  unfoldable pub get_peak_usage : ℤ → List (Records W) → Outcome (List (ResourcePack W))
  unfolding peak_loop workers_of
  get_peak_usage (pos n) ms = peak_loop (workers_of (pos n)) 0 ms (replicate n empty_pack)
  get_peak_usage (negsuc n) ms = fail length_error

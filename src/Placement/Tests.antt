-- ===== src/Placement/Tests.antt =====
-- Placements on sample workers.
use h_axe_simulation.Prelude.{ℕ, ◌≡◌, [], ◌∷◌, ok, ◌⊎◌, arith, set}
use h_axe_simulation.Prelude.Int.{ℤ, pos, negsuc}
use h_axe_simulation.Number.{zero_double}
use h_axe_simulation.Number.Whole.{whole_double}
use h_axe_simulation.Resource.{ResourceRequest, add}
use h_axe_simulation.Worker.State.{Worker}
use h_axe_simulation.Placement.{RequestQueue, next_worker, fifo, tetris}
use h_axe_simulation.Placement.Fifo.{DealsInTurn, fifo_lem}
use h_axe_simulation.Placement.Tetris.{IsOrder, IsBest, IsUnbeaten, tetris_lem}
use h_axe_simulation.Sample.{idle_worker}

abbrev request_for : ℤ → ResourceRequest ℤ
request_for memory = record {
  job_id = pos 0;
  subgraph_id = pos 0;
  data_locality = [];
  resource = record { cpu_of = pos 1; memory_of = memory; disk_of = pos 0; network_of = pos 0 };
}

-- The third request is too large for any worker.
abbrev queue : RequestQueue ℤ
queue =
    (pos 0, request_for (pos 60))
    ∷ (pos 1, request_for (pos 50))
    ∷ (pos 2, request_for (pos 500))
    ∷ []

fifo_lem_example :
    DealsInTurn 1 queue
      (idle_worker ∷ idle_worker ∷ [])
      (fifo queue (idle_worker ∷ idle_worker ∷ []) (pos 0))
unfolding next_worker
fifo_lem_example = fifo_lem (pos 0, request_for (pos 60)) _ idle_worker (idle_worker ∷ []) (pos 0)

int_order : IsOrder ℤ
int_order = record { irreflexive = λ x. ground arith; transitive = λ x y z h k. ground arith }

tetris_lem_example :
    ((k : ℕ) × (w : Worker ℤ) × IsBest (request_for (pos 60)) zero_double (idle_worker ∷ []) k w
      × (tetris ((pos 0, request_for (pos 60)) ∷ []) (idle_worker ∷ []) (negsuc 0)
          ≡ ok (record {
            decisions = (k, request_for (pos 60)) ∷ [];
            queue = [];
            workers =
                set
                  (idle_worker ∷ [])
                  k
                  (record w { reservation = add w.reservation ((request_for (pos 60)).resource) });
            cursor = negsuc 0;
          })))
    ⊎ (IsUnbeaten (request_for (pos 60)) zero_double (idle_worker ∷ [])
        × (tetris ((pos 0, request_for (pos 60)) ∷ []) (idle_worker ∷ []) (negsuc 0)
            ≡ ok (record {
              decisions = [];
              queue = (pos 0, request_for (pos 60)) ∷ [];
              workers = idle_worker ∷ [];
              cursor = negsuc 0;
            })))
tetris_lem_example =
    tetris_lem int_order (pos 0) (request_for (pos 60)) [] (idle_worker ∷ []) (negsuc 0)

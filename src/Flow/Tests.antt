-- ===== src/Flow/Tests.antt =====
-- The flow code on small graphs, and the theorem on memory at one of them.
use h_axe_simulation.Prelude.{ℕ, ◌≡◌, refl, [], ◌∷◌, Outcome, ok, ◌>>=◌, arith}
use h_axe_simulation.Prelude.Int.{ℤ, pos, negsuc, ◌+ℤ◌, ◌-ℤ◌}
use h_axe_simulation.Number.Whole.{whole_double}
use h_axe_simulation.Resource.{cpu, network}
use h_axe_simulation.Job.{ShardTask}
use h_axe_simulation.Flow.{init, add_edge, get_max_flow, get_memory_cap}
use h_axe_simulation.Flow.Capacity.{IsZero, get_memory_cap-eq-positive_sum}

-- Vertex 0 to 1 with room 5, and 1 to 2 with room 3.
chain_flow : ℕ → Outcome ℤ
chain_flow fuel = do
  g1 ← add_edge (init 3 0 2) 0 1 (pos 5)
  g2 ← add_edge g1 1 2 (pos 3)
  (flow, _) ← get_max_flow fuel g2
  ok flow

chain_flow_is_three : chain_flow 20 ≡ ok (pos 3)
unfolding chain_flow init add_edge get_max_flow ◌+ℤ◌ ◌-ℤ◌
chain_flow_is_three = refl

abbrev pub reader : ShardTask ℤ
reader = record {
  task_id = pos 0;
  job_id = pos 0;
  shard_id = pos 0;
  resource_type = network;
  memory_need = pos 2;
  req = pos 3;
  children = (record { task_id = pos 2; shard_id = pos 0 }) ∷ [];
}

abbrev pub reducer : ShardTask ℤ
reducer = record {
  task_id = pos 2;
  job_id = pos 0;
  shard_id = pos 0;
  resource_type = cpu;
  memory_need = negsuc 1;
  req = pos 3;
  children = [];
}

IsZero-whole : IsZero ℤ
unfolding ◌-ℤ◌
IsZero-whole = record { zero-lt = refl; minus_zero = minus }
  where
    minus : (n : ℤ) → n -ℤ pos 0 ≡ n
    minus n = ground arith

get_memory_cap-eq-positive_sum_example : get_memory_cap 1 (reader ∷ reducer ∷ []) ≡ ok (pos 2)
unfolding ◌+ℤ◌
get_memory_cap-eq-positive_sum_example =
    get_memory_cap-eq-positive_sum IsZero-whole 0 (reader ∷ reducer ∷ [])

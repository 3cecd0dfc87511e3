-- ===== src/Flow.antt =====
-- src/job/subgraph.h: the maximum flow (struct Dinic) and the memory capacity of a subgraph. Vertices
-- and places are indices. `Dfs` and the loop of `GetMaxFlow` run on fuel, `Bfs` on one round for each
-- vertex and one more.
pub mod Capacity
pub mod Tests
use h_axe_simulation.Prelude.{
  ℕ, zero, suc, ◌+◌, Bool, true, false, not, ◌&&◌, ◌||◌, List, [], ◌∷◌, ◌++◌, Outcome, ok, fail,
  ◌>>=◌, or_fail, out_of_range, undefined, no_fuel, if◌then◌else◌, ltb, ◌==◌, set, get_elem?,
  length, replicate,
}
use h_axe_simulation.Prelude.Int.{ℤ, pos, negsuc, eqb_ℤ, ◌+ℤ◌}
use h_axe_simulation.Number.{Double, ◌⊕◌, ◌⊖◌, lt, whole, zero_double}
use h_axe_simulation.Job.{
  ShardTaskId, ShardTask, SubGraph, key_eq, id_of, set_resources_req, unplaced,
}
use h_axe_simulation.Resource.{empty_pack}

pub record Edge (W : Type 0) : Type 0 where
  pub cap : W
  pub flow : W
  pub vertex : ℕ
  pub reverse : ℕ

pub record Dinic (W : Type 0) : Type 0 where
  pub graph : List (List (Edge W))
  pub dist : List ℤ
  pub current : List ℕ
  pub source : ℕ
  pub sink : ℕ
  pub vertex_num : ℕ

abbrev pub unreached : ℤ
unreached = negsuc 0

module _ {W : Type 0} ⦃d : Double W⦄ where
  -- the constant `inf`
  abbrev pub infinite : W
  infinite = whole (pos 1_000_000_000_000)

  -- `Init` on a fresh structure
  pub init : (vertex_num source sink : ℕ) → Dinic W
  init n source sink = record {
    graph = replicate n [];
    dist = replicate n (pos 0);
    current = replicate n 0;
    source = source;
    sink = sink;
    vertex_num = n;
  }

  edge_to : ℕ → W → ℕ → Edge W
  edge_to v capacity reverse = record {
    cap = capacity;
    flow = zero_double;
    vertex = v;
    reverse = reverse;
  }

  -- The two sizes are read before either edge is stored.
  pub add_edge : Dinic W → ℕ → ℕ → W → Outcome (Dinic W)
  unfolding edge_to
  add_edge g u v capacity = do
    at_v ← or_fail (get_elem? g.graph v) out_of_range
    at_u ← or_fail (get_elem? g.graph u) out_of_range
    let graph_u = set g.graph u (at_u ++ edge_to v capacity (length at_v) ∷ [])
    now_v ← or_fail (get_elem? graph_u v) out_of_range
    ok (record g { graph = set graph_u v (now_v ++ edge_to u zero_double (length at_u) ∷ []) })

  -- The inner loop of `Bfs`: the edges out of `u`. `dist_` is read only where the edge has room.
  pub visit_edge : ℕ → Edge W → List ℤ → List ℕ → Outcome (List ℤ × List ℕ)
  visit_edge u e dist que = elim (lt e.flow e.cap) [
    | false ↦ ok (dist, que)
    | true ↦ do
      at_v ← or_fail (get_elem? dist e.vertex) undefined
      at_u ← or_fail (get_elem? dist u) undefined
      ok (
          if eqb_ℤ at_v unreached
          then (set dist e.vertex (at_u +ℤ pos 1), que ++ e.vertex ∷ [])
          else (dist, que))
  ]

  pub scan_edges : ℕ → List (Edge W) → List ℤ → List ℕ → Outcome (List ℤ × List ℕ)
  unfolding visit_edge
  scan_edges u [] dist que = ok (dist, que)
  scan_edges u (e ∷ es) dist que = do
    (dist', que') ← visit_edge u e dist que
    scan_edges u es dist' que'

  pub bfs_loop : ℕ → List (List (Edge W)) → List ℤ → List ℕ → Outcome (List ℤ)
  unfolding scan_edges
  bfs_loop fuel graph dist [] = ok dist
  bfs_loop zero graph dist (u ∷ que) = fail no_fuel
  bfs_loop (suc fuel) graph dist (u ∷ que) = do
    edges ← or_fail (get_elem? graph u) out_of_range
    (dist', que') ← scan_edges u edges dist que
    bfs_loop fuel graph dist' que'

  -- Whether the sink is reached.
  pub bfs : Dinic W → Outcome (Bool × Dinic W)
  unfolding bfs_loop
  bfs g = do
    let start = set (replicate (length g.dist) unreached) g.source (pos 0)
    dist ← bfs_loop (g.vertex_num + 1) g.graph start (g.source ∷ [])
    at_sink ← or_fail (get_elem? dist g.sink) undefined
    ok (not (eqb_ℤ at_sink unreached), record g { dist = dist })

  edge_at : Dinic W → ℕ → ℕ → Outcome (Edge W)
  edge_at g u i = do
    edges ← or_fail (get_elem? g.graph u) out_of_range
    or_fail (get_elem? edges i) out_of_range

  put_flow : Dinic W → ℕ → ℕ → W → Outcome (Dinic W)
  put_flow g u i flow = do
    edges ← or_fail (get_elem? g.graph u) out_of_range
    edge ← or_fail (get_elem? edges i) out_of_range
    ok (record g { graph = set g.graph u (set edges i (record edge { flow = flow })) })

  -- `edge.flow += flo; reverse_edge.flow -= flo`, where the edge is the one at place `i` of `u`
  push_flow : Dinic W → ℕ → ℕ → W → Outcome (Dinic W)
  unfolding edge_at put_flow
  push_flow g u i flo = do
    edge ← edge_at g u i
    g1 ← put_flow g u i (edge.flow ⊕ flo)
    back ← edge_at g1 edge.vertex edge.reverse
    put_flow g1 edge.vertex edge.reverse (back.flow ⊖ flo)

  current_at : Dinic W → ℕ → Outcome ℕ
  current_at g u = or_fail (get_elem? g.current u) undefined

  dist_at : Dinic W → ℕ → Outcome ℤ
  dist_at g u = or_fail (get_elem? g.dist u) undefined

  -- `++i`, where `i` refers to `current_[u]`
  advance : Dinic W → ℕ → Outcome (Dinic W)
  unfolding current_at
  advance g u = do i ← current_at g u; ok (record g { current = set g.current u (i + 1) })

  min_double : W → W → W
  min_double a b = if lt b a then b else a

unfoldable mutual
  unfolding edge_at push_flow current_at dist_at advance min_double

  -- `Dfs`: the flow that was found, and the graph with it.
  pub dfs : {W : Type 0} ⦃d : Double W⦄ → ℕ → Dinic W → ℕ → W → Outcome (W × Dinic W)
  dfs zero g u max_flow = fail no_fuel
  dfs ⦃d⦄ (suc fuel) g u max_flow = elim (u == g.sink || lt (d.fabs max_flow) d.millionth) [
    | true ↦ ok (max_flow, g)
    | false ↦ dfs_loop fuel g u max_flow zero_double
  ]

  -- Its loop over the edges of `u`, from `current_[u]` on.
  pub dfs_loop : {W : Type 0} ⦃d : Double W⦄ → ℕ → Dinic W → ℕ → W → W → Outcome (W × Dinic W)
  dfs_loop zero g u max_flow ret = fail no_fuel
  dfs_loop ⦃d⦄ (suc fuel) g u max_flow ret = do
    i ← current_at g u
    edges ← or_fail (get_elem? g.graph u) out_of_range
    elim (ltb i (length edges)) [
      | false ↦ ok (ret, g)
      | true ↦ do
        edge ← edge_at g u i
        back ← edge_at g edge.vertex edge.reverse
        at_v ← dist_at g edge.vertex
        at_u ← dist_at g u
        elim (eqb_ℤ at_v (at_u +ℤ pos 1)) [
          | false ↦ do g' ← advance g u; dfs_loop fuel g' u max_flow ret
          | true ↦ do
            (flo, g1) ← dfs fuel g edge.vertex (min_double max_flow (edge.cap ⊖ edge.flow))
            elim (lt zero_double flo) [
              | false ↦ do g' ← advance g1 u; dfs_loop fuel g' u max_flow ret
              | true ↦ do
                g2 ← push_flow g1 u i flo
                let left = max_flow ⊖ flo
                elim (d.eq left zero_double) [
                  | true ↦ ok (ret ⊕ flo, g2)
                  | false ↦ do g' ← advance g2 u; dfs_loop fuel g' u left (ret ⊕ flo)
                ]
            ]
        ]
    ]

module _ {W : Type 0} where
  -- The map `shard_task_id`; a key that is not in it gives 0.
  pub number_tasks : ℕ → List (ShardTask W) → (ShardTaskId → ℕ) → ShardTaskId → ℕ
  number_tasks i [] ids = ids
  number_tasks i (st ∷ sts) ids =
      number_tasks (i + 1) sts (λ k. if key_eq k (id_of st) then i + 1 else ids k)

module _ {W : Type 0} ⦃d : Double W⦄ where
  max_flow_loop : ℕ → Dinic W → W → Outcome (W × Dinic W)
  unfolding bfs dfs
  max_flow_loop zero g ret = fail no_fuel
  max_flow_loop (suc fuel) g ret = do
    (reached, g1) ← bfs g
    elim reached [
      | false ↦ ok (ret, g1)
      | true ↦ do (flo, g2) ← dfs fuel g1 g1.source infinite; max_flow_loop fuel g2 (ret ⊕ flo)
    ]

  pub get_max_flow : ℕ → Dinic W → Outcome (W × Dinic W)
  unfolding max_flow_loop
  get_max_flow fuel g = max_flow_loop fuel g zero_double

  pub child_edges : (ShardTaskId → ℕ) → ℕ → List ShardTaskId → Dinic W → Outcome (Dinic W)
  unfolding add_edge
  child_edges ids u [] g = ok g
  child_edges ids u (c ∷ cs) g = do g' ← add_edge g (ids c) u infinite; child_edges ids u cs g'

  -- The loop of `GetMemoryCap`, with `source` 0; `result` is an `int`.
  pub build_flow : (ShardTaskId → ℕ) → ℕ → List (ShardTask W) → ℤ → Dinic W → Outcome (ℤ × Dinic W)
  unfolding child_edges add_edge
  build_flow ids sink [] result g = ok (result, g)
  build_flow ids sink (st ∷ sts) result g = do
    let u = ids (id_of st)
    (result', g1) ← elim (lt zero_double st.memory_need) [
      | true ↦ do
        g1 ← add_edge g 0 u st.memory_need
        ok (d.truncate (whole result ⊕ st.memory_need), g1)
      | false ↦ do g1 ← add_edge g u sink (d.negate st.memory_need); ok (result, g1)
    ]
    g2 ← child_edges ids u st.children g1
    build_flow ids sink sts result' g2

  -- `GetMemoryCap`. `Init` takes the source before the sink, and is called the other way round.
  pub get_memory_cap : ℕ → List (ShardTask W) → Outcome ℤ
  unfolding get_max_flow number_tasks build_flow init
  get_memory_cap fuel tasks = do
    let sink = length tasks + 1
    let ids = number_tasks 0 tasks (λ _. 0)
    (result, g) ← build_flow ids sink tasks (pos 0) (init (sink + 1) sink 0)
    (flow, _) ← get_max_flow fuel g
    ok (d.truncate (whole result ⊖ flow))

  -- `from_json` of a subgraph, once the tasks are read.
  unfoldable pub load_subgraph : ℕ → List (ShardTask W) → Outcome (SubGraph W)
  unfolding get_memory_cap
  load_subgraph fuel tasks = do
    cap ← get_memory_cap fuel tasks
    let fresh : SubGraph W = record {
      memory_cap = pos 0;
      job_id = pos 0;
      is_worker = true;
      resource_pack = empty_pack;
      shard_tasks = tasks;
      data_locality = [];
      worker_id = unplaced;
    }
    let sg = set_resources_req (whole cap) fresh
    ok (record sg { memory_cap = cap })

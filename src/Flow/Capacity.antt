-- ===== src/Flow/Capacity.antt =====
-- src/job/subgraph.h: what `GetMemoryCap` returns. The vertex that the search starts from is the one
-- at which all flow ends, so it has no edge with room.
use mathlib.Core.Path.{subst}
use mathlib.Core.Option.{some-injective}
use native.Mathlib.Decide.{ℕ_discrete}
use native.Mathlib.Numerals.{add-one}
use h_axe_simulation.Prelude.{
  ℕ, suc, ◌+◌, ◌≤◌, ◌<◌, ◌≡◌, refl, ◌∙◌, sym, ap, ◌≢◌, false, inl, inr, List, [], ◌∷◌, ◌++◌, some,
  ok, arith, if◌then◌else◌, Bool-cases, length, set, get_elem?, replicate, All, All-append,
  length-set, length-replicate, get_elem?_lt, lt_of_get_elem?, get_elem?-set_self, get_elem?-set_ne,
  get_elem?-replicate,
}
use h_axe_simulation.Prelude.Int.{ℤ, pos}
use h_axe_simulation.Number.{Double, ◌⊕◌, ◌⊖◌, lt, whole, zero_double}
use h_axe_simulation.Job.{ShardTaskId, ShardTask, id_of}
use h_axe_simulation.Flow.{
  Edge, Dinic, init, add_edge, edge_to, visit_edge, scan_edges, bfs_loop, bfs, max_flow_loop,
  get_max_flow, number_tasks, child_edges, build_flow, get_memory_cap, infinite, unreached,
}

-- What the code relies on: zero is not below itself, and a whole value less zero is itself.
pub record IsZero (W : Type 0) ⦃d : Double W⦄ : Type 0 where
  pub zero-lt : lt {W = W} zero_double zero_double ≡ false
  pub minus_zero : (n : ℤ) → d.truncate (whole n ⊖ zero_double) ≡ n

module _ {W : Type 0} ⦃d : Double W⦄ where
  abbrev pub add_need : ℤ → ShardTask W → ℤ
  add_need n st = if lt zero_double st.memory_need then d.truncate (whole n ⊕ st.memory_need) else n

  -- The sum of the positive needs, as an `int` after each addition.
  abbrev pub positive_sum : ℤ → List (ShardTask W) → ℤ
  positive_sum n [] = n
  positive_sum n (st ∷ sts) = positive_sum (add_need n st) sts

  abbrev IsFull : Edge W → Type 0
  IsFull e = lt e.flow e.cap ≡ false

  -- The graph while it is built: no edge out of the last vertex has room.
  record IsBackward (last : ℕ) (g : Dinic W) : Type 0 where
    size : length g.graph ≡ last + 1
    starts : g.source ≡ last
    ends : g.sink ≡ 0
    vertices : g.vertex_num ≡ last + 1
    distances : length g.dist ≡ last + 1
    row : List (Edge W)
    at_last : get_elem? g.graph last ≡ some row
    full : All IsFull row

  module _ (laws : IsZero W) where
    init-IsBackward : (last : ℕ) → IsBackward last (init (last + 1) last 0)
    unfolding init
    init-IsBackward last = record {
      size = length-replicate (last + 1) [];
      starts = refl;
      ends = refl;
      vertices = refl;
      distances = length-replicate (last + 1) (pos 0);
      row = [];
      at_last = get_elem?-replicate (last + 1) last [] (omega arith);
      full = tt;
    }

    -- The reverse edge that `add_edge` stores has no room either.
    back_row :
        (rows : List (List (Edge W))) (last u v n : ℕ) (now row : List (Edge W))
        → get_elem? rows v ≡ some now
        → get_elem? rows last ≡ some row
        → All IsFull row
        → let rows' = set rows v (now ++ edge_to u zero_double n ∷ []) in
          (r : List (Edge W)) × (get_elem? rows' last ≡ some r) × All IsFull r
    unfolding edge_to
    back_row rows last u v n now row at_v at_last full =
        let row' = now ++ edge_to u zero_double n ∷ [] in
        elim (ℕ_discrete v last) [
          | no other ↦ (row, get_elem?-set_ne rows v last row' other ∙ at_last, full)
          | yes same ↦
              let here = get_elem?-set_self rows v row' (lt_of_get_elem? rows v at_v) in
              let now_row =
                some-injective _ _ (sym at_last ∙ (ap (get_elem? rows) (sym same) ∙ at_v)) in
              (
                row',
                subst (λ k. get_elem? (set rows v row') k ≡ some row') same here,
                All-append IsFull now _ (subst (All IsFull) now_row full) (laws.zero-lt, tt),
              )
        ]

    add_edge-IsBackward :
        (g : Dinic W) (last u v : ℕ) (c : W)
        → IsBackward last g
        → u < last
        → v ≤ last
        → (g' : Dinic W) × (add_edge g u v c ≡ ok g') × IsBackward last g'
    unfolding add_edge
    add_edge-IsBackward g last u v c b hu hv =
        let (at_v, ev) = get_elem?_lt g.graph v (omega (arith, b.size)) in
        let (at_u, eu) = get_elem?_lt g.graph u (omega (arith, b.size)) in
        let row_u = at_u ++ edge_to v c (length at_v) ∷ [] in
        let graph_u = set g.graph u row_u in
        let (now_v, en) =
          get_elem?_lt graph_u v (omega (arith, b.size, length-set g.graph u row_u)) in
        let row_v = now_v ++ edge_to u zero_double (length at_u) ∷ [] in
        let same : get_elem? graph_u last ≡ some b.row =
          get_elem?-set_ne g.graph u last row_u (omega arith) ∙ b.at_last in
        (
          record g { graph = set graph_u v row_v },
          rw (ev, eu, en) refl,
          let (r, e, f) = back_row graph_u last u v (length at_u) now_v b.row en same b.full in
              record {
                size = length-set graph_u v row_v ∙ (length-set g.graph u row_u ∙ b.size);
                starts = b.starts;
                ends = b.ends;
                vertices = b.vertices;
                distances = b.distances;
                row = r;
                at_last = e;
                full = f;
              },
        )

    child_edges-IsBackward :
        (ids : ShardTaskId → ℕ) (last u : ℕ) (cs : List ShardTaskId) (g : Dinic W)
        → ((k : ShardTaskId) → ids k < last)
        → u < last
        → IsBackward last g
        → (g' : Dinic W) × (child_edges ids u cs g ≡ ok g') × IsBackward last g'
    unfolding child_edges
    child_edges-IsBackward ids last u [] g small hu b = (g, refl, b)
    child_edges-IsBackward ids last u (c ∷ cs) g small hu b =
        let (g1, e1, b1) =
          add_edge-IsBackward g last (ids c) u infinite b (small c) (omega arith) in
        let (g2, e2, b2) = child_edges-IsBackward ids last u cs g1 small hu b1 in (g2, rw e1 e2, b2)

    build_flow-IsBackward :
        (ids : ShardTaskId → ℕ) (last : ℕ) (sts : List (ShardTask W)) (n : ℤ) (g : Dinic W)
        → ((k : ShardTaskId) → ids k < last)
        → 0 < last
        → IsBackward last g
        → (g' : Dinic W) × (build_flow ids last sts n g ≡ ok (positive_sum n sts, g'))
          × IsBackward last g'
    unfolding build_flow
    build_flow-IsBackward ids last [] n g small h b = (g, refl, b)
    build_flow-IsBackward ids last (st ∷ sts) n g small h b =
        let u = ids (id_of st) in
        elim (Bool-cases (lt zero_double st.memory_need)) [
          | inl e ↦
              let (g1, e1, b1) =
                add_edge-IsBackward g last 0 u st.memory_need b h
                  (omega (arith, small (id_of st))) in
              let (g2, e2, b2) =
                child_edges-IsBackward ids last u st.children g1 small (small (id_of st)) b1 in
              let (g3, e3, b3) =
                build_flow-IsBackward ids last sts (d.truncate (whole n ⊕ st.memory_need)) g2 small
                  h b2 in
              (g3, rw (e, e1, e2) e3, b3)
          | inr e ↦
              let (g1, e1, b1) =
                add_edge-IsBackward g last u last (d.negate st.memory_need) b (small (id_of st))
                  (omega arith) in
              let (g2, e2, b2) =
                child_edges-IsBackward ids last u st.children g1 small (small (id_of st)) b1 in
              let (g3, e3, b3) = build_flow-IsBackward ids last sts n g2 small h b2 in
              (g3, rw (e, e1, e2) e3, b3)
        ]

    scan_edges-full :
        (u : ℕ) (es : List (Edge W)) (dist : List ℤ) (que : List ℕ)
        → All IsFull es
        → scan_edges u es dist que ≡ ok (dist, que)
    unfolding scan_edges
    scan_edges-full u [] dist que f = refl
    scan_edges-full u (e ∷ es) dist que (f, fs) =
        rw (f, visit_edge) (scan_edges-full u es dist que fs)

    -- So the search ends where it starts.
    bfs-IsBackward :
        (last : ℕ) (g : Dinic W)
        → 0 < last
        → IsBackward last g
        → (g' : Dinic W) × (bfs g ≡ ok (false, g'))
    unfolding bfs bfs_loop
    bfs-IsBackward last g h b =
        let start = set (replicate (length g.dist) unreached) g.source (pos 0) in
        let other : g.source ≢ g.sink = omega (arith, b.starts, b.ends) in
        let at_sink : get_elem? start g.sink ≡ some unreached =
          get_elem?-set_ne _ g.source g.sink (pos 0) other
          ∙ get_elem?-replicate (length g.dist) g.sink unreached
              (omega (arith, b.ends, b.distances)) in
        let at_source : get_elem? g.graph g.source ≡ some b.row =
          ap (get_elem? g.graph) b.starts ∙ b.at_last in
        (
          record g { dist = start },
          rw (add-one, at_source, scan_edges-full g.source b.row start [] b.full, at_sink) refl,
        )

number_tasks_bound :
    {W : Type 0} (i last : ℕ) (sts : List (ShardTask W)) (ids : ShardTaskId → ℕ)
    → ((k : ShardTaskId) → ids k < last)
    → i + length sts < last
    → (k : ShardTaskId) → number_tasks i sts ids k < last
unfolding number_tasks
number_tasks_bound i last [] ids small h k = small k
number_tasks_bound i last (st ∷ sts) ids small h k =
    number_tasks_bound (i + 1) last sts _ (λ j. ground (arith, small j)) (omega arith) k

-- The memory capacity of a subgraph is the sum of the needs of the tasks that take memory: neither
-- what other tasks release nor the dependencies between tasks count. The flow that is subtracted is
-- always zero, since `Init` is handed the sink as its source; with one round of fuel the search ends.
pub get_memory_cap-eq-positive_sum :
    {W : Type 0} ⦃d : Double W⦄ (laws : IsZero W) (fuel : ℕ) (sts : List (ShardTask W))
    → get_memory_cap (suc fuel) sts ≡ ok (positive_sum (pos 0) sts)
unfolding get_memory_cap get_max_flow max_flow_loop
get_memory_cap-eq-positive_sum laws fuel sts =
    let last = length sts + 1 in
    let ids = number_tasks 0 sts (λ _. 0) in
    let small = number_tasks_bound 0 last sts (λ _. 0) (λ _. omega arith) (omega arith) in
    let (g, built, b) =
      build_flow-IsBackward laws ids last sts (pos 0) _ small (omega arith)
        (init-IsBackward laws last) in
    let (g', searched) = bfs-IsBackward laws last g (omega arith) b in
    rw (built, searched) (ap ok (laws.minus_zero (positive_sum (pos 0) sts)))

-- ===== src/Manager/Dependencies.antt =====
-- src/job_manager.h: what `BuildDependencies` counts.
use h_axe_simulation.Prelude.{
  ℕ, suc, Bool, true, false, ◌+◌, ◌≡◌, refl, ap, ◌∙◌, inl, inr, List, [], ◌∷◌, arith, Bool-cases,
  if◌then◌else◌, ◌==◌, ==_iff,
}
use h_axe_simulation.Job.{ShardTaskId, id_of, key_eq, key_eq_iff, ShardTask, SubGraph, Job}
use h_axe_simulation.Manager.State.{
  Manager, bump, bump_all, note_task, note_tasks, note_subgraphs, note_edge, note_edges,
  note_task_edges, note_subgraph_edges, build_dependencies, empty_manager,
}

-- How often a task is named in a list of children.
abbrev pub occurrences : ShardTaskId → List ShardTaskId → ℕ
occurrences c [] = 0
occurrences c (child ∷ children) = (if key_eq c child then 1 else 0) + occurrences c children

-- The children in a list that are tasks of subgraph `g`, where `of` gives the subgraph of a task.
abbrev pub members_of : (ShardTaskId → ℕ) → ℕ → List ShardTaskId → ℕ
members_of of g [] = 0
members_of of g (child ∷ children) = (if g == of child then 1 else 0) + members_of of g children

pub bump_key :
    (c child : ShardTaskId) (m : ShardTaskId → ℕ)
    → bump key_eq child m c ≡ m c + (if key_eq c child then 1 else 0)
bump_key c child m = elim (Bool-cases (key_eq c child)) [
  | inl h ↦ rw h (let same : m c ≡ m child = ap m ((key_eq_iff c child).0 h) in omega arith)
  | inr h ↦ rw h (omega arith)
]

pub bump_nat : (g k : ℕ) (m : ℕ → ℕ) → bump ◌==◌ k m g ≡ m g + (if g == k then 1 else 0)
bump_nat g k m = elim (Bool-cases (g == k)) [
  | inl h ↦ rw h (let same : m g ≡ m k = ap m ((==_iff g k).0 h) in omega arith)
  | inr h ↦ rw h (omega arith)
]

bump_all_lem :
    (c : ShardTaskId) (children : List ShardTaskId) (m : ShardTaskId → ℕ)
    → bump_all children m c ≡ m c + occurrences c children
unfolding bump_all
bump_all_lem c [] m = omega arith
bump_all_lem c (child ∷ children) m =
    omega (arith, bump_all_lem c children (bump key_eq child m), bump_key c child m)

module _ {W : Type 0} where
  abbrev task_parents : ShardTaskId → List (ShardTask W) → ℕ
  task_parents c [] = 0
  task_parents c (st ∷ sts) = occurrences c st.children + task_parents c sts

  -- The edges of the job that end in a task.
  abbrev pub parents : ShardTaskId → List (SubGraph W) → ℕ
  parents c [] = 0
  parents c (sg ∷ sgs) = task_parents c sg.shard_tasks + parents c sgs

  abbrev task_entries : (ShardTaskId → ℕ) → ℕ → List (ShardTask W) → ℕ
  task_entries of g [] = 0
  task_entries of g (st ∷ sts) = members_of of g st.children + task_entries of g sts

  -- The edges that end in subgraph `g` and start in another one, of the subgraphs from number `i` on.
  abbrev pub entries : (ShardTaskId → ℕ) → ℕ → ℕ → List (SubGraph W) → ℕ
  entries of g i [] = 0
  entries of g i (sg ∷ sgs) =
      (if g == i then 0 else task_entries of g sg.shard_tasks) + entries of g (suc i) sgs

  abbrev has_task : ShardTaskId → List (ShardTask W) → Bool
  has_task c [] = false
  has_task c (st ∷ sts) = if key_eq c (id_of st) then true else has_task c sts

  -- The last of the subgraphs, from number `i` on, that a task stands in, or `other` if it is in none.
  abbrev pub home : ℕ → List (SubGraph W) → ℕ → ShardTaskId → ℕ
  home i [] other c = other
  home i (sg ∷ sgs) other c = home (suc i) sgs (if has_task c sg.shard_tasks then i else other) c

  -- The first loops note the subgraph of each task.
  note_tasks-subgraph_of :
      (c : ShardTaskId) (i : ℕ) (sts : List (ShardTask W)) (m : Manager W)
      → (note_tasks i sts m).subgraph_of c ≡ (if has_task c sts then i else m.subgraph_of c)
  unfolding note_tasks note_task
  note_tasks-subgraph_of c i [] m = refl
  note_tasks-subgraph_of c i (st ∷ sts) m =
      let later = note_tasks-subgraph_of c i sts (note_task i st m) in ground arith

  note_subgraphs-subgraph_of :
      (c : ShardTaskId) (i : ℕ) (sgs : List (SubGraph W)) (m : Manager W)
      → (note_subgraphs i sgs m).subgraph_of c ≡ home i sgs (m.subgraph_of c) c
  unfolding note_subgraphs
  note_subgraphs-subgraph_of c i [] m = refl
  note_subgraphs-subgraph_of c i (sg ∷ sgs) m =
      note_subgraphs-subgraph_of c (suc i) sgs (note_tasks i sg.shard_tasks m)
      ∙ ap (λ other. home (suc i) sgs other c) (note_tasks-subgraph_of c i sg.shard_tasks m)

  -- They count the edges into a task.
  note_tasks-dep_counter :
      (c : ShardTaskId) (i : ℕ) (sts : List (ShardTask W)) (m : Manager W)
      → (note_tasks i sts m).dep_counter c ≡ m.dep_counter c + task_parents c sts
  unfolding note_tasks note_task
  note_tasks-dep_counter c i [] m = omega arith
  note_tasks-dep_counter c i (st ∷ sts) m = omega (
    arith,
    note_tasks-dep_counter c i sts (note_task i st m),
    bump_all_lem c st.children m.dep_counter,
  )

  note_subgraphs-dep_counter :
      (c : ShardTaskId) (i : ℕ) (sgs : List (SubGraph W)) (m : Manager W)
      → (note_subgraphs i sgs m).dep_counter c ≡ m.dep_counter c + parents c sgs
  unfolding note_subgraphs
  note_subgraphs-dep_counter c i [] m = omega arith
  note_subgraphs-dep_counter c i (sg ∷ sgs) m = omega (
    arith,
    note_subgraphs-dep_counter c (suc i) sgs (note_tasks i sg.shard_tasks m),
    note_tasks-dep_counter c i sg.shard_tasks m,
  )

  -- `k` more edges into subgraph `g`, and the members that the second loops leave alone.
  record Entered (g k : ℕ) (m n : Manager W) : Type 0 where
    pub grown : n.subgraph_dep_counter g ≡ m.subgraph_dep_counter g + k
    pub same_of : n.subgraph_of ≡ m.subgraph_of
    pub same_deps : n.dep_counter ≡ m.dep_counter

  stay : (g k : ℕ) (m : Manager W) → k ≡ 0 → Entered g k m m
  stay g k m h = record { grown = omega (arith, h); same_of = refl; same_deps = refl }

  enter :
      {g k l : ℕ} {m n o : Manager W} → Entered g k m n → Entered g l n o → Entered g (k + l) m o
  enter a b = record {
    grown = omega (arith, a.grown, b.grown);
    same_of = b.same_of ∙ a.same_of;
    same_deps = b.same_deps ∙ a.same_deps;
  }

  enter_by : {g k l : ℕ} {m n : Manager W} → Entered g k m n → k ≡ l → Entered g l m n
  enter_by a h = record {
    grown = omega (arith, a.grown, h);
    same_of = a.same_of;
    same_deps = a.same_deps;
  }

  note_edge_lem :
      (of : ShardTaskId → ℕ) (g i : ℕ) (child : ShardTaskId) (m : Manager W)
      → m.subgraph_of ≡ of
      → Entered g (if g == i then 0 else if g == of child then 1 else 0) m (note_edge i child m)
  unfolding note_edge
  note_edge_lem of g i child m e = elim (Bool-cases (m.subgraph_of child == i)) [
    | inl h ↦ rw h (
        stay g _ m
          (let same : m.subgraph_of child ≡ of child = ap (λ f. f child) e in ground arith))
    | inr h ↦ rw h (record {
      grown =
          let same : m.subgraph_of child ≡ of child = ap (λ f. f child) e in
          let more = bump_nat g (m.subgraph_of child) m.subgraph_dep_counter in ground arith;
      same_of = refl;
      same_deps = refl;
    })
  ]

  note_edges_lem :
      (of : ShardTaskId → ℕ) (g i : ℕ) (children : List ShardTaskId) (m : Manager W)
      → m.subgraph_of ≡ of
      → Entered g (if g == i then 0 else members_of of g children) m (note_edges i children m)
  unfolding note_edges
  note_edges_lem of g i [] m e = stay g _ m (ground arith)
  note_edges_lem of g i (child ∷ children) m e =
      let first = note_edge_lem of g i child m e in
      enter_by
        (enter first (note_edges_lem of g i children (note_edge i child m) (first.same_of ∙ e)))
        (ground arith)

  note_task_edges_lem :
      (of : ShardTaskId → ℕ) (g i : ℕ) (sts : List (ShardTask W)) (m : Manager W)
      → m.subgraph_of ≡ of
      → Entered g (if g == i then 0 else task_entries of g sts) m (note_task_edges i sts m)
  unfolding note_task_edges
  note_task_edges_lem of g i [] m e = stay g _ m (ground arith)
  note_task_edges_lem of g i (st ∷ sts) m e =
      let first = note_edges_lem of g i st.children m e in
      enter_by
        (enter first
          (note_task_edges_lem of g i sts (note_edges i st.children m) (first.same_of ∙ e)))
        (ground arith)

  note_subgraph_edges_lem :
      (of : ShardTaskId → ℕ) (g i : ℕ) (sgs : List (SubGraph W)) (m : Manager W)
      → m.subgraph_of ≡ of
      → Entered g (entries of g i sgs) m (note_subgraph_edges i sgs m)
  unfolding note_subgraph_edges
  note_subgraph_edges_lem of g i [] m e = stay g _ m refl
  note_subgraph_edges_lem of g i (sg ∷ sgs) m e =
      let first = note_task_edges_lem of g i sg.shard_tasks m e in
      enter first (
        note_subgraph_edges_lem of g (suc i) sgs (note_task_edges i sg.shard_tasks m)
          (first.same_of ∙ e))

  note_subgraphs-subgraph_dep_counter :
      (i : ℕ) (sgs : List (SubGraph W)) (m : Manager W)
      → (note_subgraphs i sgs m).subgraph_dep_counter ≡ m.subgraph_dep_counter
  unfolding note_subgraphs note_tasks note_task
  note_subgraphs-subgraph_dep_counter i [] m = refl
  note_subgraphs-subgraph_dep_counter i (sg ∷ sgs) m =
      note_subgraphs-subgraph_dep_counter (suc i) sgs (note_tasks i sg.shard_tasks m)
      ∙ go i sg.shard_tasks m
    where
      go :
          (i : ℕ) (sts : List (ShardTask W)) (m : Manager W)
          → (note_tasks i sts m).subgraph_dep_counter ≡ m.subgraph_dep_counter
      go i [] m = refl
      go i (st ∷ sts) m = go i sts (note_task i st m)

-- `BuildDependencies` gives each task, named by its id, the number of edges of the job that end in it and
-- the last subgraph that it stands in, and each subgraph the number of edges that end in one of its tasks
-- and start in another subgraph. A child that is no task of the job counts as one of subgraph 0.
pub build_dependencies_lem :
    {W : Type 0} (job : Job W) (c : ShardTaskId) (g : ℕ)
    → let m = build_dependencies (empty_manager job) in
      (m.dep_counter c ≡ parents c job.subgraphs)
      × (m.subgraph_of c ≡ home 0 job.subgraphs 0 c)
      × (m.subgraph_dep_counter g ≡ entries (home 0 job.subgraphs 0) g 0 job.subgraphs)
unfolding build_dependencies
build_dependencies_lem job c g =
    let m = note_subgraphs 0 job.subgraphs (empty_manager job) in
    let homes : m.subgraph_of ≡ home 0 job.subgraphs 0 =
      λ i k. note_subgraphs-subgraph_of k 0 job.subgraphs (empty_manager job) i in
    let r = note_subgraph_edges_lem (home 0 job.subgraphs 0) g 0 job.subgraphs m homes in
    let untouched = note_subgraphs-subgraph_dep_counter 0 job.subgraphs (empty_manager job) in
    (
      ap (λ f. f c) r.same_deps
          ∙ note_subgraphs-dep_counter c 0 job.subgraphs (empty_manager job)
          ∙ omega arith,
      ap (λ f. f c) (r.same_of ∙ homes),
      omega (arith, r.grown, ap (λ f. f g) untouched),
    )

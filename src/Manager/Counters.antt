-- ===== src/Manager/Counters.antt =====
-- src/job_manager.h: what the end of a task does to the counters of its children.
use mathlib.Core.Path.{subst}
use h_axe_simulation.Prelude.{
  ℕ, ◌+◌, ◌≡◌, refl, ap, ◌∙◌, List, [], ◌∷◌, ok, arith, >>=-eq-ok, if◌then◌else◌, ◌==◌,
}
use h_axe_simulation.Number.{Double}
use h_axe_simulation.Job.{ShardTaskId, key_eq}
use h_axe_simulation.Resource.{ResourceRequest}
use h_axe_simulation.Event.{Event}
use h_axe_simulation.Manager.State.{Manager, bump, child_requests}
use h_axe_simulation.Manager.Handlers.{Cluster, ready_child, visit_child, visit_children}
use h_axe_simulation.Manager.Dependencies.{occurrences, members_of, bump_key, bump_nat}

module _ {W : Type 0} where
  -- The counts for task `c` and subgraph `g` have grown, and the rest of the counters is as before.
  pub record HasCounted (c : ShardTaskId) (g k l : ℕ) (m n : Manager W) : Type 0 where
    pub of_task : n.dep_finish_counter c ≡ m.dep_finish_counter c + k
    pub of_subgraph : n.subgraph_dep_finish_counter g ≡ m.subgraph_dep_finish_counter g + l
    pub same_of : n.subgraph_of ≡ m.subgraph_of
    pub same_deps : n.dep_counter ≡ m.dep_counter
    pub same_subgraph_deps : n.subgraph_dep_counter ≡ m.subgraph_dep_counter
    pub same_job : n.job ≡ m.job

  count_none : (c : ShardTaskId) (g : ℕ) (m : Manager W) → HasCounted c g 0 0 m m
  count_none c g m = record {
    of_task = omega arith;
    of_subgraph = omega arith;
    same_of = refl;
    same_deps = refl;
    same_subgraph_deps = refl;
    same_job = refl;
  }

  count_both :
      {c : ShardTaskId} {g k l k' l' : ℕ} {m n o : Manager W}
      → HasCounted c g k l m n
      → HasCounted c g k' l' n o
      → HasCounted c g (k + k') (l + l') m o
  count_both a b = record {
    of_task = omega (arith, a.of_task, b.of_task);
    of_subgraph = omega (arith, a.of_subgraph, b.of_subgraph);
    same_of = b.same_of ∙ a.same_of;
    same_deps = b.same_deps ∙ a.same_deps;
    same_subgraph_deps = b.same_subgraph_deps ∙ a.same_subgraph_deps;
    same_job = b.same_job ∙ a.same_job;
  }

  -- The members that a request leaves alone.
  abbrev SameCounters : Manager W → Manager W → Type 0
  SameCounters m n =
      (n.dep_finish_counter ≡ m.dep_finish_counter)
      × (n.subgraph_dep_finish_counter ≡ m.subgraph_dep_finish_counter)
      × (n.subgraph_of ≡ m.subgraph_of)
      × (n.dep_counter ≡ m.dep_counter)
      × (n.subgraph_dep_counter ≡ m.subgraph_dep_counter)
      × (n.job ≡ m.job)

  child_requests-SameCounters :
      (child : ShardTaskId) (m m' : Manager W) {reqs : List (ResourceRequest W)}
      → child_requests child m ≡ ok (m', reqs)
      → SameCounters m m'
  unfolding child_requests
  child_requests-SameCounters child m m' e = ground arith

module _ {W : Type 0} ⦃d : Double W⦄ where
  ready_child-SameCounters :
      (time : W) (child : ShardTaskId) (m m' : Manager W) (c c' : Cluster W)
      {events : List (Event W)}
      → ready_child time child m c ≡ ok (m', c', events)
      → SameCounters m m'
  unfolding ready_child
  ready_child-SameCounters time child m m' c c' e =
      let same = child_requests-SameCounters child m in grind arith

  counted : (child : ShardTaskId) (m : Manager W) → Manager W
  counted child m = record m {
    dep_finish_counter = bump key_eq child m.dep_finish_counter;
    subgraph_dep_finish_counter = bump ◌==◌ (m.subgraph_of child) m.subgraph_dep_finish_counter;
  }

  visit_child-SameCounters :
      (time : W) (child : ShardTaskId) (m m' : Manager W) (c c' : Cluster W)
      {events : List (Event W)}
      → visit_child time child m c ≡ ok (m', c', events)
      → SameCounters (counted child m) m'
  unfolding visit_child counted
  visit_child-SameCounters time child m m' c c' e =
      let same = ready_child-SameCounters time child (counted child m) in grind arith

  visit_child-HasCounted :
      (k : ShardTaskId) (g : ℕ) (time : W) (child : ShardTaskId) (m m' : Manager W)
      (c c' : Cluster W) {events : List (Event W)}
      → visit_child time child m c ≡ ok (m', c', events)
      → HasCounted k g
          (if key_eq k child then 1 else 0)
          (if g == m.subgraph_of child then 1 else 0)
          m
          m'
  unfolding counted
  visit_child-HasCounted k g time child m m' c c' e =
      let (a, b, of, deps, subgraph_deps, job) = visit_child-SameCounters time child m m' c c' e in
      record {
        of_task = ap (λ f. f k) a ∙ bump_key k child m.dep_finish_counter;
        of_subgraph =
            ap (λ f. f g) b ∙ bump_nat g (m.subgraph_of child) m.subgraph_dep_finish_counter;
        same_of = of;
        same_deps = deps;
        same_subgraph_deps = subgraph_deps;
        same_job = job;
      }

-- The visit of the children of a task that ended, if it does not abort, counts each task once for each time
-- that it is among them, and each subgraph once for each child that is one of its tasks; the counters
-- of what is waited for, the subgraphs of tasks and the job stay as they are.
pub visit_children_lem :
    {W : Type 0} ⦃d : Double W⦄ (k : ShardTaskId) (g : ℕ) (time : W) (children : List ShardTaskId)
    (m m' : Manager W) (c c' : Cluster W) {events : List (Event W)}
    → visit_children time children m c ≡ ok (m', c', events)
    → HasCounted k g (occurrences k children) (members_of m.subgraph_of g children) m m'
unfolding visit_children
visit_children_lem k g time [] m m' c c' e =
    let same : m ≡ m' = cc in subst (HasCounted k g 0 0 m) same (count_none k g m)
visit_children_lem k g time (child ∷ children) m m' c c' e =
    let ((m1, c1, now), first, rest) = >>=-eq-ok (visit_child time child m c) _ e in
    let ((m2, c2, later), second, last) = >>=-eq-ok (visit_children time children m1 c1) _ rest in
    let one = visit_child-HasCounted k g time child m m1 c c1 first in
    let more = visit_children_lem k g time children m1 m2 c1 c2 second in
    let same : m2 ≡ m' = cc in
    subst (HasCounted k g _ _ m) same (
      count_both one (
        subst (λ of. HasCounted k g (occurrences k children) (members_of of g children) m1 m2)
          one.same_of more))

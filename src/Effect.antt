-- ===== src/Effect.antt =====
-- src/job_manager.h, src/scheduler and src/simulator.h: the steps that every handler is made of. A
-- relation between what the handlers share and what it is after them, with the events that they return,
-- is proved of the steps once, and holds of all handlers then.
pub mod Numbers
pub mod Kept
pub mod Sized
pub mod Classes
use h_axe_simulation.Prelude.{
  ℕ, ◌≡◌, refl, List, [], ◌∷◌, ◌++◌, Outcome, ok, some, ◌>>=◌, or_fail, or_fail-eq-ok, out_of_range,
  Ensures, Ensures-bind, Ensures-ok, get_elem?, set,
}
use h_axe_simulation.Prelude.Int.{ℤ, pos, negsuc}
use h_axe_simulation.Number.{Double}
use h_axe_simulation.Job.{ShardTask}
use h_axe_simulation.Event.{Event, EventType, Members}
use h_axe_simulation.Event.Classes.{Carries}
use h_axe_simulation.User.{User}
use h_axe_simulation.Worker.State.{Worker, Shared, new_event}
use h_axe_simulation.Worker.Machine.{place_new_task, subgraph_finish, task_finish}
use h_axe_simulation.Placement.{PlacementName, Placed, RequestQueue, task_placement}
use h_axe_simulation.Manager.Handlers.{Cluster, on_worker}

module _ {W : Type 0} ⦃d : Double W⦄ where
  -- The call that the end of a subgraph makes.
  abbrev pub end_call :
      (time mem : W) (w : Worker W) → Shared W → Outcome (Worker W × Shared W × List (Event W))
  end_call time mem w s = do w' ← subgraph_finish time mem w; ok (w', s, [])

  pub record IsEffect (R : Cluster W → Cluster W × List (Event W) → Type 0) : Type 0 where
    pub idle : (c : Cluster W) (users : List (User W)) → R c (record c { users = users }, [])
    pub append :
        (c c1 c2 : Cluster W) (es fs : List (Event W))
        → R c (c1, es)
        → R c1 (c2, fs)
        → R c (c2, es ++ fs)
    pub made :
        (t : EventType) (time : W) (priority principal : ℤ) (members : Members W) (c : Cluster W)
        → Carries t principal members
        → let (event, s') = new_event t time priority principal members c.shared in
          R c (record c { shared = s' }, event ∷ [])
    pub placing :
        (i : ℤ) (time : W) (task : ShardTask W) (c : Cluster W)
        → Ensures (R c) (on_worker i (place_new_task time task) c)
    pub finishing :
        (i : ℤ) (time : W) (event_id : ℕ) (task : ShardTask W) (c : Cluster W)
        → Ensures (R c) (on_worker i (task_finish time event_id task) c)
    pub ending :
        (i : ℤ) (time mem : W) (c : Cluster W) → Ensures (R c) (on_worker i (end_call time mem) c)
    pub reserving :
        (name : PlacementName) (queue : RequestQueue W) (cursor : ℤ) (c : Cluster W) (r : Placed W)
        → task_placement name queue c.workers cursor ≡ ok r
        → R c (record c { workers = r.workers }, [])

  -- A call that a worker answers, out of its answer.
  pub on_worker-Ensures :
      (Q : Cluster W × List (Event W) → Type 0) (i : ℤ)
      (f : Worker W → Shared W → Outcome (Worker W × Shared W × List (Event W))) (c : Cluster W)
      → ((n : ℕ) (w : Worker W)
          → get_elem? c.workers n ≡ some w
          → Ensures
              (λ r. Q (record c { workers = set c.workers n r.0; shared = r.1 }, r.2))
              (f w c.shared))
      → Ensures Q (on_worker i f c)
  unfolding on_worker
  on_worker-Ensures Q (negsuc n) f c h = tt
  on_worker-Ensures Q (pos n) f c h =
      Ensures-bind Q (or_fail (get_elem? c.workers n) out_of_range) _ (λ w e.
        let held = or_fail-eq-ok (get_elem? c.workers n) out_of_range e in
        Ensures-bind Q (f w c.shared) _ (λ r g. Ensures-ok _ (f w c.shared) (h n w held) g))

  abbrev pub MakesNone : Cluster W → Cluster W × List (Event W) → Type 0
  MakesNone c r = (r.0.shared ≡ c.shared) × (r.1 ≡ [])

  -- The end of a subgraph makes no event, and returns none.
  pub end_call-MakesNone :
      (i : ℤ) (time mem : W) (c : Cluster W)
      → Ensures (MakesNone c) (on_worker i (end_call time mem) c)
  end_call-MakesNone i time mem c =
      on_worker-Ensures (MakesNone c) i (end_call time mem) c
        (λ n w e. Ensures-bind _ (subgraph_finish time mem w) _ (λ w' g. (refl, refl)))

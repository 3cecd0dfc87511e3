-- ===== src/Simulator/Start.antt =====
-- src/simulator.h: the constructor and `Init`, once workers and jobs are read.
use h_axe_simulation.Prelude.{
  ℕ, suc, Bool, List, [], ◌∷◌, map, Outcome, ok, ◌>>=◌, replicate, if◌then◌else◌,
}
use h_axe_simulation.Prelude.Int.{ℤ, pos, negsuc, ◌+ℤ◌, ltb_ℤ}
use h_axe_simulation.Number.{Double}
use h_axe_simulation.Resource.{ResourcePack, empty_pack, add_to_me}
use h_axe_simulation.Job.{Job}
use h_axe_simulation.Event.{Event, EventType, Members, scheduler_principal, push_all}
use h_axe_simulation.Worker.State.{Worker, Shared, new_event}
use h_axe_simulation.Worker.Machine.{init_worker, available_resource}
use h_axe_simulation.User.{User, new_user, add_job_id, set_cluster_capacity}
use h_axe_simulation.Placement.{PlacementName}
use h_axe_simulation.Manager.State.{Manager, new_manager}
use h_axe_simulation.Manager.Handlers.{modify}
use h_axe_simulation.Simulator.{Simulator}

module _ {W : Type 0} ⦃d : Double W⦄ where
  -- The last loop of the constructor.
  unfoldable pub init_workers : ℕ → List (Worker W) → Outcome (List (Worker W))
  unfolding init_worker
  init_workers i [] = ok []
  init_workers i (w ∷ ws) = do
    w' ← init_worker (pos i) w
    ws' ← init_workers (suc i) ws
    ok (w' ∷ ws')

  pub total_capacity : List (Worker W) → ResourcePack W → ResourcePack W
  unfolding available_resource add_to_me
  total_capacity [] p = p
  total_capacity (w ∷ ws) p = total_capacity ws (add_to_me p (available_resource w))

  -- The number of users: one more than the largest id.
  pub count_users : List (Job W) → ℤ → ℤ
  count_users [] size = size
  count_users (job ∷ jobs) size =
      count_users jobs (if ltb_ℤ size (job.user_id +ℤ pos 1) then job.user_id +ℤ pos 1 else size)

  pub add_job_ids : List (Job W) → List (User W) → Outcome (List (User W))
  unfolding add_job_id
  add_job_ids [] users = ok users
  add_job_ids (job ∷ jobs) users = do
    users' ← modify users job.user_id (add_job_id job.job_id)
    add_job_ids jobs users'

  unfoldable pub new_job_events : List (Manager W) → Shared W → List (Event W) × Shared W
  unfolding new_event
  new_job_events [] s = ([], s)
  new_job_events (m ∷ ms) s =
      let (event, s') =
        new_event EventType.new_job m.job.submission_time (pos 0) scheduler_principal
          (Members.submitted_job m.job) s in
      let (events, s'') = new_job_events ms s' in (event ∷ events, s'')

  -- `users_->resize` of an empty vector
  pub make_users : ℤ → List (User W)
  make_users (pos n) = replicate n new_user
  make_users (negsuc n) = []

  -- `Init`, with the workers of the constructor; the shared part has no event yet, and no invalid one.
  unfoldable pub init_simulator :
      Bool → PlacementName → List (Worker W) → List (Job W) → (ℕ → W → W) → Outcome (Simulator W)
  unfolding total_capacity new_manager count_users make_users add_job_ids set_cluster_capacity
      new_job_events push_all
  init_simulator yarn algorithm workers jobs draw = do
    let capacity = total_capacity workers empty_pack
    let managers = map (new_manager yarn) jobs
    users ← add_job_ids jobs (make_users (count_users jobs (pos 0)))
    let (events, s) = new_job_events managers (record { event_num = 0; invalid = []; draw = draw })
    ok (record {
      cluster_capacity = capacity;
      scheduler = record { req_queue = []; records = []; cursor = negsuc 0; algorithm = algorithm };
      managers = managers;
      queue = push_all [] events;
      cluster = record {
        workers = workers;
        users = map (set_cluster_capacity capacity) users;
        shared = s;
      };
    })

  -- The constructor and `Init`.
  unfoldable pub start :
      Bool → PlacementName → List (Worker W) → List (Job W) → (ℕ → W → W) → Outcome (Simulator W)
  unfolding init_workers init_simulator
  start yarn algorithm workers jobs draw = do
    workers' ← init_workers 0 workers
    init_simulator yarn algorithm workers' jobs draw

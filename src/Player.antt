-- ===== src/Player.antt =====
-- src/play_back/unit.h and player.h: the units of a job that ran, their time line, and the events that
-- are made of them. `locality_` is parsed to the number of the worker before.
pub mod Records
pub mod Report
pub mod Entries
pub mod Durations
pub mod Collect
pub mod Init
pub mod TimeLine
pub mod Order
pub mod Load
pub mod Balance
pub mod Tests
use h_axe_simulation.Prelude.{
  ℕ, Bool, List, [], ◌∷◌, ◌++◌, map, Option, none, some, Outcome, or_fail, ◌>>=◌, ok, undefined,
  if◌then◌else◌,
}
use h_axe_simulation.Prelude.Int.{ℤ, pos, ltb_ℤ, ◌+ℤ◌, ◌-ℤ◌}
use h_axe_simulation.Number.{Double, whole}

-- class Unit
pub record TaskUnit (W : Type 0) : Type 0 where
  pub assigned_time : ℤ
  pub finished_time : ℤ
  pub worker_id : ℤ
  pub resource_type : ℤ
  pub memory_of : W
  pub resource_req : W
  pub task_id : ℤ

pub record RecordEvent (W : Type 0) : Type 0 where
  pub event_type : ℕ
  pub time : ℤ
  pub worker_id : ℤ
  pub resource_type : ℤ
  pub resource_request : W
  pub memory_of : W
  pub duration : W

module _ {W : Type 0} where
  -- `UnitComparator`
  pub unit_comparator : TaskUnit W → TaskUnit W → Bool
  unit_comparator i j = ltb_ℤ i.assigned_time j.assigned_time

  pub insert_unit : TaskUnit W → List (TaskUnit W) → List (TaskUnit W)
  unfolding unit_comparator
  insert_unit u [] = u ∷ []
  insert_unit u (v ∷ vs) = if unit_comparator v u then v ∷ insert_unit u vs else u ∷ v ∷ vs

  -- `sort(units_.begin(), units_.end(), UnitComparator)`; of units that tie the standard leaves the
  -- order open.
  pub sort_units : List (TaskUnit W) → List (TaskUnit W)
  unfolding insert_unit
  sort_units [] = []
  sort_units (u ∷ us) = insert_unit u (sort_units us)

  start_loop : ℤ → List (TaskUnit W) → ℤ
  start_loop start [] = start
  start_loop start (u ∷ us) =
      start_loop (if ltb_ℤ u.assigned_time start then u.assigned_time else start) us

  -- `GetStartPoint`; `units_[0]` of no units has no defined behaviour.
  pub get_start_point : List (TaskUnit W) → Outcome ℤ
  unfolding start_loop
  get_start_point [] = Outcome.fail undefined
  get_start_point (u ∷ us) = ok (start_loop u.assigned_time (u ∷ us))

  greatest_loop : (TaskUnit W → ℤ) → ℤ → List (TaskUnit W) → ℤ
  greatest_loop part most [] = most
  greatest_loop part most (u ∷ us) =
      greatest_loop part (if ltb_ℤ (part u) most then most else part u) us

  -- `ComputeWorkerNum`, the greatest number of a worker
  pub compute_worker_num : List (TaskUnit W) → Outcome ℤ
  unfolding greatest_loop
  compute_worker_num [] = Outcome.fail undefined
  compute_worker_num (u ∷ us) = ok (greatest_loop (λ v. v.worker_id) u.worker_id (u ∷ us))

  -- `ComputeTaskNum`, the greatest number of a task
  pub compute_task_num : List (TaskUnit W) → Outcome ℤ
  unfolding greatest_loop
  compute_task_num [] = Outcome.fail undefined
  compute_task_num (u ∷ us) = ok (greatest_loop (λ v. v.task_id) u.task_id (u ∷ us))

  pub shift : ℤ → TaskUnit W → TaskUnit W
  shift time u = record u {
    assigned_time = u.assigned_time -ℤ time;
    finished_time = u.finished_time -ℤ time;
  }

  -- `FixTimeLine`
  pub fix_time_line : ℤ → List (TaskUnit W) → List (TaskUnit W)
  unfolding shift
  fix_time_line time units = map (shift time) units

  pub earlier : RecordEvent W → List (RecordEvent W) → RecordEvent W × List (RecordEvent W)
  earlier e [] = (e, [])
  earlier e (x ∷ xs) =
      let (top, rest) = earlier (if ltb_ℤ x.time e.time then x else e) xs in
      (top, (if ltb_ℤ x.time e.time then e else x) ∷ rest)

  -- `top` and `pop` of the queue under `RecordEventCompare`: an event of the least time.
  pub pop_record_event : List (RecordEvent W) → Option (RecordEvent W × List (RecordEvent W))
  unfolding earlier
  pop_record_event [] = none
  pop_record_event (e ∷ es) = some (earlier e es)

module _ {W : Type 0} ⦃d : Double W⦄ where
  pub start_event : TaskUnit W → RecordEvent W
  start_event u = record {
    event_type = 0;
    time = u.assigned_time;
    worker_id = u.worker_id;
    resource_type = u.resource_type;
    resource_request = u.resource_req;
    memory_of = u.memory_of;
    duration = whole ((u.finished_time -ℤ u.assigned_time) +ℤ pos 1);
  }

  pub finish_event : TaskUnit W → RecordEvent W
  finish_event u = record {
    event_type = 1;
    time = u.finished_time;
    worker_id = u.worker_id;
    resource_type = u.resource_type;
    resource_request = u.resource_req;
    memory_of = u.memory_of;
    duration = whole ((u.finished_time -ℤ u.assigned_time) +ℤ pos 1);
  }

  -- `GenerateEvent`: what is pushed, in the order of the pushes.
  pub generate_event : List (TaskUnit W) → List (RecordEvent W)
  unfolding start_event finish_event
  generate_event [] = []
  generate_event (u ∷ us) = start_event u ∷ finish_event u ∷ generate_event us

-- ===== src/Event.antt =====
-- src/event/*.h, event_queue.h: events, their order, and the priority queue. An event has its type and
-- its members; a handler that casts an event to a class that it is not of has no defined behaviour.
pub mod Classes
pub mod Order
pub mod Queue
pub mod Tests
use h_axe_simulation.Prelude.{
  ℕ, Bool, true, false, List, [], ◌∷◌, ◌++◌, Option, none, some, if◌then◌else◌, ltb, ◌==◌, not,
}
use h_axe_simulation.Prelude.Int.{ℤ, pos, negsuc, ltb_ℤ}
use h_axe_simulation.Number.{Double, lt, ◌⊖◌}
use h_axe_simulation.Resource.{ResourceRequest}
use h_axe_simulation.Job.{ShardTask, Job}

pub data EventType : Type 0 where
  task_finish resource_available job_finish job_admission : EventType
  placement_decision new_task_req new_job : EventType

-- the value of the enumeration
pub type_index : EventType → ℕ
type_index task_finish = 0
type_index resource_available = 1
type_index job_finish = 2
type_index job_admission = 3
type_index placement_decision = 4
type_index new_task_req = 5
type_index new_job = 6

-- What a class of events adds to the base class.
pub data Members (W : Type 0) : Type 0 where
  finished_task : ShardTask W → Members W
  nothing : Members W
  finished_job : (job_id : ℤ) → W → Members W
  admitted_job : (job_id : ℤ) → Members W
  decision : (worker_id subgraph_id : ℤ) → Members W
  request : ResourceRequest W → Members W
  submitted_job : Job W → Members W

pub record Event (W : Type 0) : Type 0 where
  pub event_type : EventType
  pub time : W
  pub priority : ℤ
  pub principal : ℤ
  pub event_id : ℕ
  pub members : Members W

-- `kScheduler`
abbrev pub scheduler_principal : ℤ
scheduler_principal = negsuc 0

module _ {W : Type 0} ⦃d : Double W⦄ where
  -- `operator<`
  pub event_lt : Event W → Event W → Bool
  unfolding type_index
  event_lt a b =
      if lt d.millionth (d.fabs (a.time ⊖ b.time))
      then lt a.time b.time
      else if not (type_index a.event_type == type_index b.event_type)
      then ltb (type_index a.event_type) (type_index b.event_type)
      else ltb_ℤ a.priority b.priority

  -- `std::priority_queue`: `Top` is an element that no other comes before. Among several the list,
  -- in the order of the pushes, gives the earliest.
  unfoldable pub best : Event W → List (Event W) → Event W × List (Event W)
  best e [] = (e, [])
  best e (x ∷ xs) =
      let (top, rest) = best (if event_lt x e then x else e) xs in
      (top, (if event_lt x e then e else x) ∷ rest)

  unfoldable pub top_pop : List (Event W) → Option (Event W × List (Event W))
  unfolding best event_lt
  top_pop [] = none
  top_pop (e ∷ es) = some (best e es)

  -- `Push` of a vector
  unfoldable pub push_all : List (Event W) → List (Event W) → List (Event W)
  push_all queue events = queue ++ events

-- ===== src/Event/Tests.antt =====
-- Events at whole times, and the theorems at them. The unit of time is a millionth.
use mathlib.Core.List.{Perm}
use h_axe_simulation.Prelude.{
  ℕ, ◌≡◌, refl, true, false, not, List, [], ◌∷◌, some, arith, All, ltb, ◌==◌, ◌*◌,
}
use h_axe_simulation.Prelude.Int.{ℤ, pos, ◌-ℤ◌}
use h_axe_simulation.Number.Whole.{whole_double}
use h_axe_simulation.Event.{
  Event, EventType, Members, event_lt, type_index, top_pop, scheduler_principal,
}
use h_axe_simulation.Event.Order.{
  IsWeakOrder, IsTicks, OnTick, event_lt-cycle, event_lt-IsWeakOrder,
}
use h_axe_simulation.Event.Queue.{top_pop_lem}

abbrev event : EventType → ℕ → ℕ → Event ℤ
event t time id = record {
  event_type = t;
  time = pos time;
  priority = pos 0;
  principal = scheduler_principal;
  event_id = id;
  members = Members.nothing;
}

abbrev early : Event ℤ
early = event EventType.new_job 0 0

abbrev middle : Event ℤ
middle = event EventType.job_admission 1 1

abbrev late : Event ℤ
late = event EventType.task_finish 2 2

event_lt-cycle_example :
    (event_lt middle early ≡ true) × (event_lt late middle ≡ true) × (event_lt early late ≡ true)
unfolding ◌-ℤ◌ type_index
event_lt-cycle_example =
    event_lt-cycle early middle late refl refl refl refl (omega arith) (omega arith)

abbrev seconds : ℕ → ℤ
seconds n = pos (n * 1_000_000)

seconds-IsTicks : IsTicks seconds
unfolding ◌-ℤ◌
seconds-IsTicks = record { lt-tick = lt_lem; apart-tick = apart }
  where
    lt_lem : (m n : ℕ) → whole_double.lt (seconds m) (seconds n) ≡ ltb m n
    lt_lem m n = ground arith

    apart :
        (m n : ℕ)
        → whole_double.lt whole_double.millionth (whole_double.fabs (seconds m -ℤ seconds n))
          ≡ not (m == n)
    apart m n = ground arith

abbrev noon : Event ℤ
noon = event EventType.new_task_req 3_000_000 4

event_lt-IsWeakOrder_example : IsWeakOrder (OnTick seconds-IsTicks)
event_lt-IsWeakOrder_example = event_lt-IsWeakOrder seconds-IsTicks

top_pop_lem_example :
    (top : Event ℤ) × (rest : List (Event ℤ)) × (top_pop (noon ∷ early ∷ []) ≡ some (top, rest))
    × Perm (noon ∷ early ∷ []) (top ∷ rest)
    × All (λ x. event_lt x top ≡ false) rest
top_pop_lem_example =
    top_pop_lem (event_lt-IsWeakOrder seconds-IsTicks) noon (early ∷ [])
      ((3, refl), ((0, refl), tt))

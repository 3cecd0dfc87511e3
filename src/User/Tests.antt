-- ===== src/User/Tests.antt =====
-- A user's account in whole numbers.
use mathlib.Core.List.{Permᴰ}
use h_axe_simulation.Prelude.{◌≡◌, refl, map, List, [], ◌∷◌, ok}
use h_axe_simulation.Prelude.Int.{ℤ, pos, int_laws, ◌+ℤ◌, ◌-ℤ◌}
use h_axe_simulation.Number.Whole.{whole_double}
use h_axe_simulation.Resource.{empty_pack}
use h_axe_simulation.Job.{SubGraph, set_resources_req}
use h_axe_simulation.Sample.{read_task, compute_task, subgraph}
use h_axe_simulation.User.{User, new_user, user_placement, user_task_finish, user_subgraph_finish}
use h_axe_simulation.RecordMap.{report_rows}
use h_axe_simulation.RecordMap.Rows.{IsRising}
use h_axe_simulation.User.Report.{report_share, placed, numbered, report_share_lem}
use h_axe_simulation.User.Account.{IsExact, finish_all, reservation_returned}

pub int-IsExact : IsExact ℤ
unfolding ◌+ℤ◌ ◌-ℤ◌
int-IsExact = record {
  assoc = λ x y z. grind int_laws;
  comm = λ x y. grind int_laws;
  cancel = λ x y. grind int_laws;
  right_zero = λ x. grind int_laws;
}

abbrev mixed : SubGraph ℤ
mixed = subgraph (read_task ∷ compute_task ∷ []) empty_pack

-- The tasks end in the other order.
reservation_returned_example :
    (user_subgraph_finish (pos 9) (pos 5) (
      finish_all ((pos 3, compute_task) ∷ (pos 4, read_task) ∷ []) (
        user_placement
          (pos 0)
          ((set_resources_req (pos 5) mixed).resource_pack)
          new_user))).reservation
    ≡ new_user.reservation
reservation_returned_example =
    reservation_returned int-IsExact new_user mixed (pos 5) (pos 0) (pos 9)
      ((pos 3, compute_task) ∷ (pos 4, read_task) ∷ []) refl refl ((λ e. cc), ((λ e. cc), tt))
      (Permᴰ.swap refl refl)

-- A user whose only subgraph is placed, and ends with its last task: three records, two at one time.
abbrev served_user : User ℤ
served_user = user_subgraph_finish (pos 3) (pos 5) (
    user_task_finish (pos 3) read_task
      (user_placement (pos 1) ((set_resources_req (pos 5) mixed).resource_pack) new_user))

abbrev pair_of : List ℤ → ℤ × List ℤ
pair_of [] = (pos 0, [])
pair_of (time ∷ shares) = (time, shares)

abbrev history : List (ℤ × List ℤ)
history = map pair_of served_user.records

abbrev first_shares : List (ℤ × List ℤ) → List ℤ
first_shares [] = []
first_shares (p ∷ ps) = p.1

abbrev after_first : List (ℤ × List ℤ) → List (ℤ × List ℤ)
after_first [] = []
after_first (p ∷ ps) = ps

report_share_lem_example :
    let placements = (pos 0, first_shares history) ∷ placed (pos 0) (after_first history) in
    IsRising placements
    × (report_share served_user ≡ ok (numbered (pos 0) (report_rows placements)))
unfolding user_placement user_task_finish user_subgraph_finish
report_share_lem_example =
    report_share_lem served_user (pos 1) (first_shares history) (after_first history) refl

-- The rows of two records in one second: the record of second 1 is shown in row 2.
drifting_rows :
    report_share (record new_user {
      records = (pos 0 ∷ pos 7 ∷ []) ∷ (pos 0 ∷ pos 8 ∷ []) ∷ (pos 1 ∷ pos 9 ∷ []) ∷ [];
    })
    ≡ ok ((pos 0, pos 7 ∷ []) ∷ (pos 1, pos 8 ∷ []) ∷ (pos 2, pos 9 ∷ []) ∷ [])
unfolding report_share ◌-ℤ◌ ◌+ℤ◌
drifting_rows = refl

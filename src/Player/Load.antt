-- ===== src/Player/Load.antt =====
-- src/play_back/player.h: what the units that run take of a worker, and that an end gives back what the
-- start took.
use h_axe_simulation.Prelude.{
  ℕ, suc, ◌≡◌, refl, sym, ap, ◌∙◌, true, false, inl, inr, List, [], ◌∷◌, All, Bool-cases, arith,
  if◌then◌else◌, ◌<◌,
}
use h_axe_simulation.Prelude.Int.{ℤ, pos, eqb_ℤ, ltb_ℤ, ◌+ℤ◌, ◌-ℤ◌, pos_part}
use h_axe_simulation.Prelude.Pick.{Pick}
use h_axe_simulation.Number.{Double, ◌⊕◌, ◌⊖◌, ◌⊘◌, lt, le, whole, zero_double, one_double}
use h_axe_simulation.Resource.{ResourcePack, empty_pack, add}
use h_axe_simulation.User.Account.{IsExact, right_comm}
use h_axe_simulation.Player.{TaskUnit, RecordEvent, start_event, finish_event}
use h_axe_simulation.Player.Records.{start_load, finish_load, at_least_zero}

-- Sums that lose nothing, of which none falls below zero.
pub record IsTally (W : Type 0) ⦃d : Double W⦄ : Type 0 where
  pub exact : IsExact W
  pub zero_least : lt (zero_double {W = W}) zero_double ≡ false
  pub one_above : lt (one_double {W = W}) zero_double ≡ false
  pub positive : (x : W) → le x zero_double ≡ false → lt x zero_double ≡ false
  pub sum :
      (x y : W)
      → lt x zero_double ≡ false
      → lt y zero_double ≡ false
      → lt (x ⊕ y) zero_double ≡ false
  pub share :
      (x : W) (n : ℕ) → le x zero_double ≡ false → lt (x ⊘ whole (pos (suc n))) zero_double ≡ false

duration_positive : (a f : ℤ) → ltb_ℤ a f ≡ true → (m : ℕ) × ((f -ℤ a) +ℤ pos 1 ≡ pos (suc m))
unfolding ◌+ℤ◌ ◌-ℤ◌
duration_positive a f h = (pos_part (f -ℤ a), ground arith)

module _ {W : Type 0} ⦃d : Double W⦄ where
  -- A unit that asks for something, that starts before it ends, on one of `n` workers.
  pub record IsPlayable (n : ℕ) (u : TaskUnit W) : Type 0 where
    pub asks : le u.resource_req zero_double ≡ false
    pub in_time : ltb_ℤ u.assigned_time u.finished_time ≡ true
    pub place : ℕ
    pub placed : u.worker_id ≡ pos place
    pub in_range : place < n

  -- What a unit takes of the worker `k`.
  abbrev pub charge : ℕ → TaskUnit W → ResourcePack W → ResourcePack W
  charge k u p = if eqb_ℤ u.worker_id (pos k) then start_load (start_event u) p else p

  abbrev pub load : ℕ → List (TaskUnit W) → ResourcePack W
  load k [] = empty_pack
  load k (u ∷ us) = charge k u (load k us)

  abbrev pub NotNegative : ResourcePack W → Type 0
  NotNegative p = (lt p.cpu_of zero_double ≡ false) × (lt p.network_of zero_double ≡ false)

  -- What an event adds, as a pack.
  abbrev part : RecordEvent W → ResourcePack W
  part e = record (empty_pack {W = W}) {
    cpu_of =
        if eqb_ℤ e.resource_type (pos 0)
        then e.resource_request
        else if eqb_ℤ e.resource_type (pos 1)
        then zero_double
        else one_double;
    memory_of = e.memory_of;
    network_of =
        if eqb_ℤ e.resource_type (pos 0)
        then zero_double
        else if eqb_ℤ e.resource_type (pos 1)
        then e.resource_request ⊘ e.duration
        else zero_double;
  }

  module _ (law : IsTally W) where
    start_load-eq-add : (e : RecordEvent W) (p : ResourcePack W) → start_load e p ≡ add p (part e)
    unfolding start_load add
    start_load-eq-add e p = elim (Bool-cases (eqb_ℤ e.resource_type (pos 0))) [
      | inl h ↦ rw (h, zero p.disk_of, zero p.network_of) refl
      | inr h ↦ elim (Bool-cases (eqb_ℤ e.resource_type (pos 1))) [
        | inl g ↦ rw (h, g, zero p.cpu_of, zero p.disk_of) refl
        | inr g ↦ rw (h, g, zero p.disk_of, zero p.network_of) refl
      ]
    ]
      where
        zero : (x : W) → x ⊕ zero_double ≡ x
        zero = law.exact.right_zero

    add_comm : (p q r : ResourcePack W) → add (add p q) r ≡ add (add p r) q
    unfolding add
    add_comm p q r =
        rw
          (
            right_comm law.exact p.cpu_of q.cpu_of r.cpu_of,
            right_comm law.exact p.memory_of q.memory_of r.memory_of,
            right_comm law.exact p.disk_of q.disk_of r.disk_of,
            right_comm law.exact p.network_of q.network_of r.network_of,
          )
          refl

    start_comm :
        (e f : RecordEvent W) (p : ResourcePack W)
        → start_load e (start_load f p) ≡ start_load f (start_load e p)
    start_comm e f p =
        start_load-eq-add e (start_load f p)
        ∙ ap (λ q. add q (part e)) (start_load-eq-add f p)
        ∙ add_comm p (part f) (part e)
        ∙ sym (ap (λ q. add q (part f)) (start_load-eq-add e p))
        ∙ sym (start_load-eq-add f (start_load e p))

    charge_comm :
        (k : ℕ) (u v : TaskUnit W) (p : ResourcePack W)
        → charge k u (charge k v p) ≡ charge k v (charge k u p)
    charge_comm k u v p = elim (Bool-cases (eqb_ℤ u.worker_id (pos k))) [
      | inr g ↦ rw g refl
      | inl g ↦ elim (Bool-cases (eqb_ℤ v.worker_id (pos k))) [
        | inr h ↦ rw h refl
        | inl h ↦ rw (g, h) (start_comm (start_event u) (start_event v) p)
      ]
    ]

    -- One of the units that run may be counted first.
    pub load-Pick :
        (k : ℕ) {u : TaskUnit W} {us left : List (TaskUnit W)}
        → Pick u us left
        → load k us ≡ load k (u ∷ left)
    load-Pick k Pick.here = refl
    load-Pick k {u} {us = v ∷ vs} {left = w ∷ left} (Pick.there p) =
        ap (charge k v) (load-Pick k p) ∙ charge_comm k v u (load k left)

    part-NotNegative :
        (n : ℕ) (u : TaskUnit W) → IsPlayable n u → NotNegative (part (start_event u))
    unfolding start_event
    part-NotNegative n u h =
        let (m, e) = duration_positive u.assigned_time u.finished_time h.in_time in
        let share = law.share u.resource_req m h.asks in
        elim (Bool-cases (eqb_ℤ u.resource_type (pos 0))) [
          | inl a ↦ rw a (law.positive u.resource_req h.asks, law.zero_least)
          | inr a ↦ elim (Bool-cases (eqb_ℤ u.resource_type (pos 1))) [
            | inl b ↦ rw (a, b, e) (law.zero_least, share)
            | inr b ↦ rw (a, b) (law.one_above, law.zero_least)
          ]
        ]

    charge-NotNegative :
        (k n : ℕ) (u : TaskUnit W) (p : ResourcePack W)
        → IsPlayable n u
        → NotNegative p
        → NotNegative (charge k u p)
    unfolding add
    charge-NotNegative k n u p h (c, w) = elim (Bool-cases (eqb_ℤ u.worker_id (pos k))) [
      | inr g ↦ rw g (c, w)
      | inl g ↦
          let (c', w') = part-NotNegative n u h in
          rw (g, start_load-eq-add (start_event u) p) (law.sum _ _ c c', law.sum _ _ w w')
    ]

    pub load-NotNegative :
        (k n : ℕ) (us : List (TaskUnit W)) → All (IsPlayable n) us → NotNegative (load k us)
    load-NotNegative k n [] hs = (law.zero_least, law.zero_least)
    load-NotNegative k n (u ∷ us) (h, hs) =
        charge-NotNegative k n u (load k us) h (load-NotNegative k n us hs)

    -- The end of a unit gives back what its start took.
    pub finish_start :
        (u : TaskUnit W) (p : ResourcePack W)
        → NotNegative p
        → finish_load (finish_event u) (start_load (start_event u) p) ≡ p
    unfolding start_load start_event finish_load finish_event at_least_zero
    finish_start u p (c, w) = elim (Bool-cases (eqb_ℤ u.resource_type (pos 0))) [
      | inl a ↦ rw (a, cancel p.cpu_of u.resource_req, cancel p.memory_of u.memory_of) refl
      | inr a ↦ elim (Bool-cases (eqb_ℤ u.resource_type (pos 1))) [
        | inl b ↦ rw (a, b, cancel p.network_of _, cancel p.memory_of u.memory_of, w) refl
        | inr b ↦ rw (a, b, cancel p.cpu_of one_double, cancel p.memory_of u.memory_of, c) refl
      ]
    ]
      where
        cancel : (x y : W) → (x ⊕ y) ⊖ y ≡ x
        cancel = law.exact.cancel

-- ===== src/Resource/Laws.antt =====
-- What the pack operations compute, resource by resource.
use h_axe_simulation.Prelude.{◌≡◌, refl, ◌↔◌, true, arith}
use h_axe_simulation.Number.{Double, lt}
use h_axe_simulation.Resource.{
  ResourceType, cpu, memory, disk, network, ResourcePack, by_index, add, subtract, add_to_me,
  subtract_from_me, fit_in,
}

module _ {W : Type 0} ⦃d : Double W⦄ (p q : ResourcePack W) where
  -- The in-place sum and difference give the packs that the pure ones return.
  pub in_place : (add_to_me p q ≡ add p q) × (subtract_from_me p q ≡ subtract p q)
  unfolding add_to_me add subtract_from_me subtract
  in_place = (refl, refl)

  -- A pack fits exactly when each of its resources lies strictly below that of the other.
  pub fit_in_iff :
      (fit_in p q ≡ true) ↔ ((i : ResourceType) → lt (by_index p i) (by_index q i) ≡ true)
  unfolding fit_in
  fit_in_iff = (to, λ all. ground (arith, all cpu, all memory, all disk, all network))
    where
      to : fit_in p q ≡ true → (i : ResourceType) → lt (by_index p i) (by_index q i) ≡ true
      to h cpu = ground arith
      to h memory = ground arith
      to h disk = ground arith
      to h network = ground arith

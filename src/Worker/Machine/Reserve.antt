-- ===== src/Worker/Machine/Reserve.antt =====
-- src/worker/worker.h and node_manager.h: reservations.
use h_axe_simulation.Prelude.{◌≡◌, refl, true, false, Bool-cases, inl, inr}
use h_axe_simulation.Number.{Double, lt}
use h_axe_simulation.Resource.{ResourceType, ResourcePack, by_index, add, fit_in}
use h_axe_simulation.Resource.Laws.{in_place, fit_in_iff}
use h_axe_simulation.Worker.State.{Worker}
use h_axe_simulation.Worker.Machine.{reserve, try_to_reserve, reservation_limit}

module _ {W : Type 0} ⦃d : Double W⦄ (resource : ResourcePack W) (w : Worker W) where
  -- Every resource is reserved below its limit.
  abbrev pub IsBelow : Worker W → Type 0
  IsBelow v =
      (i : ResourceType) → lt (by_index v.reservation i) (by_index (reservation_limit v) i) ≡ true

  -- The two outcomes, for proofs that know which one it is.
  pub reserve_parts :
      let (w', done) = reserve resource w in
      (done ≡ try_to_reserve resource w)
      × (done ≡ true → (w' ≡ record w { reservation = add w.reservation resource }) × IsBelow w')
      × (done ≡ false → w' ≡ w)
  unfolding reserve try_to_reserve
  reserve_parts = elim (Bool-cases (fit_in (add w.reservation resource) (reservation_limit w))) [
    | inl fits ↦ rw fits (
      refl,
      λ _. (
        rw (in_place w.reservation resource).0,
        rw (in_place w.reservation resource).0
            ((fit_in_iff (add w.reservation resource) (reservation_limit w)).0 fits),
      ),
      λ e. cc,
    )
    | inr full ↦ rw full (refl, λ e. cc, λ _. refl)
  ]

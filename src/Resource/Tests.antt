-- ===== src/Resource/Tests.antt =====
-- Packs of whole numbers, and the theorems at them.
use h_axe_simulation.Prelude.{◌≡◌, refl, true, false}
use h_axe_simulation.Prelude.Int.{ℤ, pos, ◌+ℤ◌, ◌*ℤ◌}
use h_axe_simulation.Number.Whole.{whole_double}
use h_axe_simulation.Resource.{
  ResourcePack, add, subtract, add_to_me, subtract_from_me, fit_in, dot_product,
}
use h_axe_simulation.Resource.Laws.{in_place}

abbrev small : ResourcePack ℤ
small = record { cpu_of = pos 1; memory_of = pos 2; disk_of = pos 3; network_of = pos 4 }

abbrev large : ResourcePack ℤ
large = record { cpu_of = pos 5; memory_of = pos 5; disk_of = pos 5; network_of = pos 5 }

fits :
    (fit_in small large ≡ true) × (fit_in large large ≡ false) × (dot_product small large ≡ pos 50)
unfolding fit_in dot_product ◌+ℤ◌ ◌*ℤ◌
fits = (refl, refl, refl)

small_in_place :
    (add_to_me small large ≡ add small large)
    × (subtract_from_me small large ≡ subtract small large)
small_in_place = in_place small large

-- ===== src/Number/Whole.antt =====
-- The integers as an instance of `Double`: the arithmetic of doubles on whole values that stay exact,
-- with one millionth of the program's unit as the unit here where a tolerance matters.
use h_axe_simulation.Prelude.{ℕ, ◌+◌, ◌/◌, if◌then◌else◌}
use h_axe_simulation.Prelude.Int.{
  ℤ, pos, pos_part, neg_part, sub_ℕ, ◌+ℤ◌, ◌-ℤ◌, ◌*ℤ◌, ltb_ℤ, leb_ℤ, eqb_ℤ,
}
use h_axe_simulation.Number.{Double}

abbrev magnitude : ℤ → ℕ
magnitude a = pos_part a + neg_part a

-- Division that drops the fraction, towards zero; the sign is that of the product.
unfoldable pub div_ℤ : ℤ → ℤ → ℤ
div_ℤ a b =
    if ltb_ℤ a (pos 0)
    then (if ltb_ℤ b (pos 0) then pos q else sub_ℕ 0 q)
    else (if ltb_ℤ b (pos 0) then sub_ℕ 0 q else pos q)
  where
    q : ℕ
    q = magnitude a / magnitude b

instance abbrev pub whole_double : Double ℤ
whole_double = record {
  whole = λ n. n;
  millionth = pos 1;
  three_halves = pos 1;
  plus = ◌+ℤ◌;
  minus = ◌-ℤ◌;
  times = ◌*ℤ◌;
  over = div_ℤ;
  negate = λ a. pos 0 -ℤ a;
  fabs = λ a. pos (magnitude a);
  eq = eqb_ℤ;
  lt = ltb_ℤ;
  le = leb_ℤ;
  truncate = λ n. n;
}

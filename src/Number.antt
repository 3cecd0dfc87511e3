-- ===== src/Number.antt =====
-- C++ `double`. The source uses it for times, sizes and resources; its values and operations are a
-- parameter, an instance of `Double`, of which a theorem assumes only the laws that it names.
pub mod Whole
use h_axe_simulation.Prelude.{Bool}
use h_axe_simulation.Prelude.Int.{ℤ, pos}

pub record Double (W : Type 0) : Type 0 where
  -- the value of an integer: a literal, or an `int` that is converted
  pub whole : ℤ → W
  -- the literals 1e-6 and 1.5
  pub millionth : W
  pub three_halves : W
  pub plus : W → W → W
  pub minus : W → W → W
  pub times : W → W → W
  pub over : W → W → W
  pub negate : W → W
  pub fabs : W → W
  -- `a == b`, `a < b` and `a <= b`; all fail on NaN
  pub eq : W → W → Bool
  pub lt : W → W → Bool
  pub le : W → W → Bool
  -- `static_cast<int>`
  pub truncate : W → ℤ

infixl 65 ◌⊕◌ ◌⊖◌
infixl 70 ◌⊗◌ ◌⊘◌
abbrev pub ◌⊕◌ : {W : Type 0} ⦃d : Double W⦄ → W → W → W
◌⊕◌ ⦃d⦄ = d.plus

abbrev pub ◌⊖◌ : {W : Type 0} ⦃d : Double W⦄ → W → W → W
◌⊖◌ ⦃d⦄ = d.minus

abbrev pub ◌⊗◌ : {W : Type 0} ⦃d : Double W⦄ → W → W → W
◌⊗◌ ⦃d⦄ = d.times

abbrev pub ◌⊘◌ : {W : Type 0} ⦃d : Double W⦄ → W → W → W
◌⊘◌ ⦃d⦄ = d.over

abbrev pub lt : {W : Type 0} ⦃d : Double W⦄ → W → W → Bool
lt ⦃d⦄ = d.lt

abbrev pub le : {W : Type 0} ⦃d : Double W⦄ → W → W → Bool
le ⦃d⦄ = d.le

abbrev pub whole : {W : Type 0} ⦃d : Double W⦄ → ℤ → W
whole ⦃d⦄ = d.whole

abbrev pub zero_double : {W : Type 0} ⦃d : Double W⦄ → W
zero_double ⦃d⦄ = d.whole (pos 0)

abbrev pub one_double : {W : Type 0} ⦃d : Double W⦄ → W
one_double ⦃d⦄ = d.whole (pos 1)

-- Two values are as good as equal: `fabs(a - b) < 1e-6`.
abbrev pub close : {W : Type 0} ⦃d : Double W⦄ → W → W → Bool
close ⦃d⦄ a b = d.lt (d.fabs (d.minus a b)) d.millionth

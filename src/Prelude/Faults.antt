-- ===== src/Prelude/Faults.antt =====
-- The outcome of code that may abort: a failed `CHECK`, an `at` out of range, an empty handler.
use mathlib.Core.Path.{◌≡◌, refl, subst}
use mathlib.Core.Bool.{Bool, true, false}
use mathlib.Core.Option.{Option, none, some}
use h_axe_simulation.Prelude.Tests.{if◌then◌else◌}

-- Why a run stops.
pub data Fault : Type 0 where
  check_failed : Fault
  out_of_range : Fault
  no_handler : Fault
  length_error : Fault
  type_error : Fault
  invalid_argument : Fault
  undefined : Fault
  -- no fault of the code: a loop of the model was given too few rounds
  no_fuel : Fault

pub data Outcome {ℓ} (A : Type ℓ) : Type ℓ where
  ok : A → Outcome A
  fail : Fault → Outcome A

-- What follows a statement sees its value, and does not run once the code has stopped.
infixl 5 ◌>>=◌ ◌>>◌
abbrev pub ◌>>=◌ {ℓ κ} : {A : Type ℓ} {B : Type κ} → Outcome A → (A → Outcome B) → Outcome B
fail why >>= next = fail why
ok value >>= next = next value

abbrev pub ◌>>◌ {κ} : {B : Type κ} → Outcome (Unit {0}) → Outcome B → Outcome B
fail why >> after = fail why
ok done >> after = after

-- `CHECK(b)`.
abbrev pub check : Bool → Outcome (Unit {0})
check false = fail check_failed
check true = ok tt

abbrev pub or_fail {ℓ} : {A : Type ℓ} → Option A → Fault → Outcome A
or_fail none e = fail e
or_fail (some a) e = ok a

pub or_fail-eq-ok {ℓ} :
    {A : Type ℓ} (o : Option A) (e : Fault) {a : A} → or_fail o e ≡ ok a → o ≡ some a
or_fail-eq-ok none e h = cc
or_fail-eq-ok (some a) e h = cc

module _ {ℓ κ} {A : Type ℓ} {B : Type κ} where
  -- Code in two parts that returns has returned in both.
  pub >>=-eq-ok :
      (first : Outcome A) (next : A → Outcome B) {result : B}
      → (first >>= next) ≡ ok result
      → (value : A) × (first ≡ ok value) × (next value ≡ ok result)
  >>=-eq-ok (fail why) next e = cc
  >>=-eq-ok (ok value) next e = (value, refl, e)

-- A property of the result, where there is one.
abbrev pub Ensures {ℓ κ} : {A : Type ℓ} → (A → Type κ) → Outcome A → Type κ
Ensures P (ok a) = P a
Ensures P (fail e) = Unit

pub Ensures-bind {ℓ κ μ} :
    {A : Type ℓ} {B : Type κ} (P : B → Type μ) (m : Outcome A) (f : A → Outcome B)
    → ((a : A) → m ≡ ok a → Ensures P (f a))
    → Ensures P (m >>= f)
Ensures-bind P (ok a) f h = h a refl
Ensures-bind P (fail e) f h = tt

pub Ensures-ok {ℓ κ} :
    {A : Type ℓ} (P : A → Type κ) (m : Outcome A) {a : A} → Ensures P m → m ≡ ok a → P a
Ensures-ok P m h e = subst (Ensures P) e h

pub Ensures-map {ℓ κ μ} :
    {A : Type ℓ} {P : A → Type κ} {Q : A → Type μ} (m : Outcome A)
    → Ensures P m
    → ((a : A) → P a → Q a)
    → Ensures Q m
Ensures-map (ok a) h f = f a h
Ensures-map (fail e) h f = tt

pub Ensures-if {ℓ κ} :
    {A : Type ℓ} (P : A → Type κ) (b : Bool) (m n : Outcome A)
    → (b ≡ true → Ensures P m)
    → (b ≡ false → Ensures P n)
    → Ensures P (if b then m else n)
Ensures-if P true m n h k = h refl
Ensures-if P false m n h k = k refl

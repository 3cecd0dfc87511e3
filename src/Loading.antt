-- ===== src/Loading.antt =====
-- nlohmann::json, which the sources read their input with. The library is a parameter: a type of
-- values and what the sources call on them.
pub mod Text
pub mod Jobs
pub mod Units
pub mod Sample
pub mod Tests
use Prim.Native.String.{String}
use h_axe_simulation.Prelude.{
  List, [], ◌∷◌, Option, none, some, Outcome, ok, fail, ◌>>=◌, or_fail, out_of_range, type_error,
}
use h_axe_simulation.Prelude.Int.{ℤ}

-- `V` holds the values of the library, and `W` the doubles of the program.
pub record Json (V W : Type 0) : Type 0 where
  -- `find`, for a key of an object; there is none in a value of another kind
  pub find : V → String → Option V
  -- `get_to` for an `int` or `int64_t`, a double, a string and a vector; none where it throws
  pub int_of : V → Option ℤ
  pub double_of : V → Option W
  pub text_of : V → Option String
  pub items_of : V → Option (List V)

module _ {V W : Type 0} (json : Json V W) where
  -- `at`, which throws where `find` finds nothing
  abbrev pub at_key : V → String → Outcome V
  at_key j key = or_fail (json.find j key) out_of_range

  abbrev pub get_int : V → String → Outcome ℤ
  get_int j key = do v ← at_key j key; or_fail (json.int_of v) type_error

  abbrev pub get_double : V → String → Outcome W
  get_double j key = do v ← at_key j key; or_fail (json.double_of v) type_error

  abbrev pub get_text : V → String → Outcome String
  get_text j key = do v ← at_key j key; or_fail (json.text_of v) type_error

-- `get_to` of a vector: the elements one after another, with the function that reads one.
pub read_all : {V A : Type 0} → (V → Outcome A) → List V → Outcome (List A)
read_all read [] = ok []
read_all read (j ∷ js) = do x ← read j; xs ← read_all read js; ok (x ∷ xs)

module _ {V W : Type 0} (json : Json V W) {A : Type 0} (read : V → Outcome A) where
  unfoldable pub read_items : V → Outcome (List A)
  unfolding read_all
  read_items j = do items ← or_fail (json.items_of j) type_error; read_all read items

  -- `pos = j.find(key)` with a `get_to` if there is one; the vector is empty if there is none.
  pub read_optional : V → String → Outcome (List A)
  unfolding read_items
  read_optional j key = elim (json.find j key) [ none ↦ ok [] | some v ↦ read_items v ]

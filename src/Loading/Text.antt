-- ===== src/Loading/Text.antt =====
-- `std::string::erase` and `std::stoi`, as src/play_back/unit.h calls them. A text is the list of its
-- bytes.
pub mod RoundTrip
use h_axe_simulation.Prelude.{
  ℕ, zero, suc, ◌+◌, ◌-◌, ◌*◌, ◌/◌, ◌%◌, ◌<◌, ◌≤◌, ◌≡◌, refl, sym, ap, ◌∙◌, Bool, true, false, ◌&&◌,
  ◌||◌, List, [], ◌∷◌, ◌++◌, All, arith, Outcome, ok, fail, ◌>>=◌, check, invalid_argument,
  out_of_range, ltb, leb, ◌==◌, if◌then◌else◌,
}
use h_axe_simulation.Prelude.Int.{ℤ, pos, negsuc}

abbrev pub Bytes : Type 0
Bytes = List ℕ

-- `erase(0, n)` of a text, which may be shorter
unfoldable pub erase_front : ℕ → Bytes → Bytes
erase_front zero s = s
erase_front (suc n) [] = []
erase_front (suc n) (c ∷ s) = erase_front n s

is_digit : ℕ → Bool
is_digit c = leb b'0' c && leb c b'9'

-- `isspace`
is_blank : ℕ → Bool
is_blank c = c == b' ' || (leb 9 c && leb c 13)

skip_blanks : Bytes → Bytes
unfolding is_blank
skip_blanks [] = []
skip_blanks (c ∷ s) = if is_blank c then skip_blanks s else c ∷ s

-- The number that the digits at the front write, after one that is read.
read_digits : ℕ → Bytes → ℕ
unfolding is_digit
read_digits n [] = n
read_digits n (c ∷ s) = if is_digit c then read_digits (n * 10 + (c - b'0')) s else n

-- A magnitude, with the bound of `int` on its side.
signed : Bool → Bytes → Outcome ℤ
unfolding read_digits
signed negative [] = fail invalid_argument
signed negative (c ∷ s) =
    let n = read_digits 0 (c ∷ s) in
    if is_digit c
    then (if ltb (if negative then 2_147_483_648 else 2_147_483_647) n
        then fail out_of_range
        else ok (if negative then (if n == 0 then pos 0 else negsuc (n - 1)) else pos n))
    else fail invalid_argument

after_blanks : Bytes → Outcome ℤ
unfolding signed
after_blanks [] = fail invalid_argument
after_blanks (c ∷ s) =
    if c == b'-' then signed true s else if c == b'+' then signed false s else signed false (c ∷ s)

-- `std::stoi`
unfoldable pub stoi : Bytes → Outcome ℤ
unfolding after_blanks skip_blanks
stoi s = after_blanks (skip_blanks s)

-- ===== src/Loading/Text/RoundTrip.antt =====
-- src/play_back/unit.h: the numbers of workers, from their names.
use h_axe_simulation.Prelude.{
  ℕ, zero, suc, ◌+◌, ◌-◌, ◌*◌, ◌/◌, ◌%◌, ◌<◌, ◌≤◌, ◌≡◌, refl, sym, ap, ◌∙◌, true, false, inl, inr,
  [], ◌∷◌, ◌++◌, All, arith, ok, ltb, Bool-cases, if◌then◌else◌, length,
}
use h_axe_simulation.Prelude.Int.{pos}
use h_axe_simulation.Loading.Text.{
  Bytes, erase_front, is_digit, is_blank, skip_blanks, read_digits, signed, after_blanks, stoi,
}
use h_axe_simulation.Loading.Units.{worker_id_of}

-- The decimal digits of a number, with as many rounds as the fuel.
digits_of : ℕ → ℕ → Bytes
digits_of zero n = []
digits_of (suc f) n =
    let front = digits_of f (n / 10) ++ (b'0' + n % 10) ∷ [] in
    if ltb n 10 then (b'0' + n) ∷ [] else front

-- A number is enough fuel for its digits.
pub decimal : ℕ → Bytes
unfolding digits_of
decimal n = digits_of (suc n) n

abbrev Digits : Bytes → Type 0
Digits s = All (λ (c : ℕ). is_digit c ≡ true) s

Digits-snoc : (s : Bytes) (c : ℕ) → Digits s → is_digit c ≡ true → Digits (s ++ c ∷ [])
Digits-snoc [] c h e = (e, tt)
Digits-snoc (b ∷ s) c (g, h) e = (g, Digits-snoc s c h e)

digits_of-Digits : (f n : ℕ) → Digits (digits_of f n)
unfolding digits_of
digits_of-Digits zero n = tt
digits_of-Digits (suc f) n = elim (Bool-cases (ltb n 10)) [
  | inl small ↦
      let digit : is_digit (b'0' + n) ≡ true = unfold is_digit in ground arith in
      rw small (digit, tt)
  | inr large ↦
      let digit : is_digit (b'0' + n % 10) ≡ true = unfold is_digit in ground arith in
      rw large (Digits-snoc (digits_of f (n / 10)) _ (digits_of-Digits f (n / 10)) digit)
]

read_digits-snoc :
    (n : ℕ) (s : Bytes) (c : ℕ)
    → Digits s
    → is_digit c ≡ true
    → read_digits n (s ++ c ∷ []) ≡ read_digits n s * 10 + (c - b'0')
unfolding read_digits
read_digits-snoc n [] c h e = rw e refl
read_digits-snoc n (b ∷ s) c (g, h) e = rw g (read_digits-snoc (n * 10 + (b - b'0')) s c h e)

read_digits-digits_of : (f n : ℕ) → n < f → read_digits 0 (digits_of f n) ≡ n
unfolding digits_of
read_digits-digits_of zero n h = absurd (omega arith)
read_digits-digits_of (suc f) n h = elim (Bool-cases (ltb n 10)) [
  | inl small ↦
      let digit : is_digit (b'0' + n) ≡ true = unfold is_digit in ground arith in
      rw small (read_digits-snoc 0 [] (b'0' + n) tt digit ∙ unfold read_digits in omega arith)
  | inr large ↦
      let digit : is_digit (b'0' + n % 10) ≡ true = unfold is_digit in ground arith in
      let front = read_digits-digits_of f (n / 10) (ground arith) in
      rw large (
        read_digits-snoc 0 (digits_of f (n / 10)) (b'0' + n % 10) (digits_of-Digits f (n / 10))
          digit
        ∙ rw front (omega arith))
]

snoc-cons :
    (s : Bytes) (c : ℕ)
    → Digits (s ++ c ∷ [])
    → (b : ℕ) × (r : Bytes) × (s ++ c ∷ [] ≡ b ∷ r) × (is_digit b ≡ true)
snoc-cons [] c (h, _) = (c, [], refl, h)
snoc-cons (b ∷ s) c (h, _) = (b, s ++ c ∷ [], refl, h)

decimal-cons : (n : ℕ) → (b : ℕ) × (r : Bytes) × (decimal n ≡ b ∷ r) × (is_digit b ≡ true)
unfolding decimal digits_of
decimal-cons n = elim (Bool-cases (ltb n 10)) [
  | inl small ↦
      let digit : is_digit (b'0' + n) ≡ true = unfold is_digit in ground arith in
      (b'0' + n, [], rw small refl, digit)
  | inr large ↦
      let digit : is_digit (b'0' + n % 10) ≡ true = unfold is_digit in ground arith in
      let (b, r, e, g) =
        snoc-cons (digits_of n (n / 10)) (b'0' + n % 10)
          (Digits-snoc (digits_of n (n / 10)) _ (digits_of-Digits n (n / 10)) digit) in
      (b, r, rw large e, g)
]

-- A text that starts with a digit has no blank and no sign to pass.
stoi-digit : (c : ℕ) (s : Bytes) → is_digit c ≡ true → stoi (c ∷ s) ≡ signed false (c ∷ s)
unfolding stoi after_blanks skip_blanks is_blank is_digit
stoi-digit c s h = ground arith

signed-digit :
    (c : ℕ) (s : Bytes)
    → is_digit c ≡ true
    → read_digits 0 (c ∷ s) ≤ 2_147_483_647
    → signed false (c ∷ s) ≡ ok (pos (read_digits 0 (c ∷ s)))
unfolding signed
signed-digit c s h b =
    let within : ltb 2_147_483_647 (read_digits 0 (c ∷ s)) ≡ false = ground arith in ground arith

stoi-decimal : (n : ℕ) → n ≤ 2_147_483_647 → stoi (decimal n) ≡ ok (pos n)
stoi-decimal n h =
    let (b, r, e, digit) = decimal-cons n in
    let value : read_digits 0 (b ∷ r) ≡ n =
      ap (λ s. read_digits 0 s) (sym e)
      ∙ unfold decimal in (read_digits-digits_of (suc n) n (omega arith)) in
    let bound : read_digits 0 (b ∷ r) ≤ 2_147_483_647 = omega (arith, value) in
    ap stoi e ∙ stoi-digit b r digit ∙ signed-digit b r digit bound ∙ ap (λ k. ok (pos k)) value

erase_front-append : (p s : Bytes) → erase_front (length p) (p ++ s) ≡ s
unfolding erase_front
erase_front-append [] s = refl
erase_front-append (c ∷ p) s = erase_front-append p s

-- From the name of a worker, six bytes and a number in decimal digits, which fits an `int`, the number
-- is read.
pub worker_id_of-decimal :
    (p : Bytes) (n : ℕ)
    → length p ≡ 6
    → n ≤ 2_147_483_647
    → worker_id_of (p ++ decimal n) ≡ ok (pos n)
unfolding worker_id_of
worker_id_of-decimal p n six h =
    ap (λ k. stoi (erase_front k (p ++ decimal n))) (sym six)
    ∙ ap stoi (erase_front-append p (decimal n))
    ∙ stoi-decimal n h

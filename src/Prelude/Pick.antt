-- ===== src/Prelude/Pick.antt =====
-- One element of a list, and the list without it.
use mathlib.Core.Path.{◌≡◌, refl, sym, ap, subst}
use mathlib.Core.List.{List, [], ◌∷◌, ◌++◌, map, Permᴰ}
use mathlib.Core.List.Permᴰ
use h_axe_simulation.Prelude.Lists.{All}
use mathlib.Core.Logic.{◌⊎◌, inl, inr}

module _ {ℓ} {A : Type ℓ} where
  -- `Pick a l r`: `a` stands in `l`, and `r` is what is left.
  pub data Pick : A → List A → List A → Type ℓ where
    here : {a : A} {l : List A} → Pick a (a ∷ l) l
    there : {a b : A} {l r : List A} → Pick a l r → Pick a (b ∷ l) (b ∷ r)

  pub Pick-perm :
      {a : A} {l m r : List A} → Permᴰ l m → Pick a l r → (s : List A) × Pick a m s × Permᴰ r s
  Pick-perm Permᴰ.nil p = elim p [ ]
  Pick-perm {m = b ∷ m} (Permᴰ.cons e d) Pick.here =
      (m, subst (λ x. Pick x (b ∷ m) m) (sym e) Pick.here, d)
  Pick-perm (Permᴰ.cons e d) (Pick.there p) =
      let (s, q, d') = Pick-perm d p in (_ ∷ s, Pick.there q, Permᴰ.cons e d')
  Pick-perm {m = b ∷ c ∷ l} (Permᴰ.swap e f) Pick.here = (
    b ∷ l,
    subst (λ x. Pick x (b ∷ c ∷ l) (b ∷ l)) (sym e) (Pick.there Pick.here),
    Permᴰ.cons f (Permᴰ.refl l),
  )
  Pick-perm {m = b ∷ c ∷ l} (Permᴰ.swap e f) (Pick.there Pick.here) = (
    c ∷ l,
    subst (λ x. Pick x (b ∷ c ∷ l) (c ∷ l)) (sym f) Pick.here,
    Permᴰ.cons e (Permᴰ.refl l),
  )
  Pick-perm (Permᴰ.swap e f) (Pick.there (Pick.there p)) =
      (_, Pick.there (Pick.there p), Permᴰ.swap e f)
  Pick-perm (Permᴰ.trans d e) p =
      let (s, q, d') = Pick-perm d p in
      let (t, q', e') = Pick-perm e q in (t, q', Permᴰ.trans d' e')

  pub Permᴰ-Pick : {a : A} {l r : List A} → Pick a l r → Permᴰ l (a ∷ r)
  Permᴰ-Pick {l = l} Pick.here = Permᴰ.refl l
  Permᴰ-Pick (Pick.there p) = Permᴰ.trans (Permᴰ.cons refl (Permᴰ-Pick p)) (Permᴰ.swap refl refl)

  pub Pick-append :
      {a : A} (l m : List A) {r : List A}
      → Pick a (l ++ m) r
      → ((s : List A) × Pick a l s × (r ≡ s ++ m)) ⊎ ((s : List A) × Pick a m s × (r ≡ l ++ s))
  Pick-append [] m p = inr (_, p, refl)
  Pick-append (x ∷ l) m Pick.here = inl (l, Pick.here, refl)
  Pick-append (x ∷ l) m (Pick.there p) = elim (Pick-append l m p) [
    | inl (s, q, e) ↦ inl (x ∷ s, Pick.there q, ap (λ k. x ∷ k) e)
    | inr (s, q, e) ↦ inr (s, q, ap (λ k. x ∷ k) e)
  ]

pub Pick-map {ℓ κ} :
    {A : Type ℓ} {B : Type κ} (f : A → B) (l : List A) {b : B} {r : List B}
    → Pick b (map f l) r
    → (a : A) × (s : List A) × (b ≡ f a) × Pick a l s × (r ≡ map f s)
Pick-map f [] p = elim p [ ]
Pick-map f (x ∷ l) Pick.here = (x, l, refl, Pick.here, refl)
Pick-map f (x ∷ l) (Pick.there p) =
    let (a, s, e, q, h) = Pick-map f l p in (a, x ∷ s, e, Pick.there q, ap (λ k. f x ∷ k) h)

module _ {ℓ κ} {A : Type ℓ} (P : A → Type κ) where
  pub All-perm : {l m : List A} → Permᴰ l m → All P l → All P m
  All-perm Permᴰ.nil h = tt
  All-perm (Permᴰ.cons e d) (p, ps) = (subst P e p, All-perm d ps)
  All-perm (Permᴰ.swap e f) (p, (q, ps)) = (subst P f q, (subst P e p, ps))
  All-perm (Permᴰ.trans d e) h = All-perm e (All-perm d h)

  pub All-Pick : {a : A} {l r : List A} → Pick a l r → All P l → P a × All P r
  All-Pick Pick.here h = h
  All-Pick (Pick.there p) (q, h) = let (pa, hr) = All-Pick p h in (pa, (q, hr))

  pub All-left : (l m : List A) → All P (l ++ m) → All P l
  All-left [] m h = tt
  All-left (x ∷ l) m (p, h) = (p, All-left l m h)

pub All-map_inv {ℓ κ μ} :
    {A : Type ℓ} {B : Type κ} (P : B → Type μ) (f : A → B) (l : List A)
    → All P (map f l)
    → All (λ a. P (f a)) l
All-map_inv P f [] h = tt
All-map_inv P f (x ∷ l) (p, h) = (p, All-map_inv P f l h)

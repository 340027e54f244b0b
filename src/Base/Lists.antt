-- ===== src/Base/Lists.antt =====
-- Lists by the native numbers, and predicates on every member.
use Prim.Native.Nat.{ℕ, zero, suc, ◌+◌}
use mathlib.Core.Option.{Option, none, some}
use mathlib.Core.Logic.{◌⊎◌, inl, inr}
use mathlib.Core.Path.{◌≡◌, refl, sym, subst}
use mathlib.Core.List.{List, [], ◌∷◌, ◌++◌, map}
use native.Mathlib.Omega.{arith}

module _ {ℓ} {A : Type ℓ} where
  abbrev pub length : List A → ℕ
  length [] = 0
  length (x ∷ xs) = suc (length xs)

  pub length-append : (xs ys : List A) → length (xs ++ ys) ≡ length xs + length ys
  length-append [] ys = omega arith
  length-append (x ∷ xs) ys = omega (arith, length-append xs ys)

module _ {ℓ κ} {A : Type ℓ} (P : A → Type κ) where
  -- `P` of every member
  abbrev pub All : List A → Type κ
  All [] = Unit
  All (x ∷ xs) = P x × All xs

  pub All-append : (xs ys : List A) → All xs → All ys → All (xs ++ ys)
  All-append [] ys _ hy = hy
  All-append (x ∷ xs) ys (px, hx) hy = (px, All-append xs ys hx hy)

pub All-every {ℓ κ} : {A : Type ℓ} {P : A → Type κ} → ((a : A) → P a) → (xs : List A) → All P xs
All-every h [] = tt
All-every h (x ∷ xs) = (h x, All-every h xs)

module _ {A : Type 0} where
  -- A member of the list with the property
  abbrev pub Has : (A → Type 0) → List A → Type 0
  Has P [] = ⊥
  Has P (x ∷ xs) = P x ⊎ Has P xs

  pub Has-append_left : (P : A → Type 0) (xs ys : List A) → Has P xs → Has P (xs ++ ys)
  Has-append_left P [] ys h = absurd h
  Has-append_left P (x ∷ xs) ys (inl p) = inl p
  Has-append_left P (x ∷ xs) ys (inr h) = inr (Has-append_left P xs ys h)

  pub Has-append_right : (P : A → Type 0) (xs ys : List A) → Has P ys → Has P (xs ++ ys)
  Has-append_right P [] ys h = h
  Has-append_right P (x ∷ xs) ys h = inr (Has-append_right P xs ys h)

  -- The second part of the property is left out.
  pub Has-first : (P Q : A → Type 0) (xs : List A) → Has (λ x. P x × Q x) xs → Has P xs
  Has-first P Q [] h = absurd h
  Has-first P Q (x ∷ xs) (inl (p, q)) = inl p
  Has-first P Q (x ∷ xs) (inr h) = inr (Has-first P Q xs h)

  pub Has-of_eq : (P : A → Type 0) (a : A) (xs : List A) → P a → Has (λ x. x ≡ a) xs → Has P xs
  Has-of_eq P a [] p h = absurd h
  Has-of_eq P a (x ∷ xs) p (inl e) = inl (subst P (sym e) p)
  Has-of_eq P a (x ∷ xs) p (inr h) = inr (Has-of_eq P a xs p h)

pub length-map {ℓ κ} :
    {A : Type ℓ} {B : Type κ} (f : A → B) (xs : List A) → length (map f xs) ≡ length xs
length-map f [] = refl
length-map f (x ∷ xs) = omega (arith, length-map f xs)

module _ {ℓ} {A : Type ℓ} where
  abbrev pub get_elem? : List A → ℕ → Option A
  get_elem? [] i = none
  get_elem? (x ∷ xs) zero = some x
  get_elem? (x ∷ xs) (suc i) = get_elem? xs i

  pub get_elem?-append :
      (pre : List A) (x : A) (rest : List A) → get_elem? (pre ++ x ∷ rest) (length pre) ≡ some x
  get_elem?-append [] x rest = refl
  get_elem?-append (p ∷ pre) x rest = get_elem?-append pre x rest

-- A member's image is a member of the images.
pub Has-map :
    {A B : Type 0} (P : A → Type 0) (Q : B → Type 0) (f : A → B)
    → ((a : A) → P a → Q (f a))
    → (xs : List A) → Has P xs
    → Has Q (map f xs)
Has-map P Q f h [] has = absurd has
Has-map P Q f h (x ∷ xs) (inl p) = inl (h x p)
Has-map P Q f h (x ∷ xs) (inr has) = inr (Has-map P Q f h xs has)

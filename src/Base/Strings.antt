-- ===== src/Base/Strings.antt =====
-- Go strings. A `string` that is valid UTF-8 is the list of its code points: the byte order that
-- Go compares and sorts by is the order of the code points, and prefixes are the same.
use Prim.Native.Nat.{ℕ, zero, suc, ◌+◌, ◌<◌, ◌/◌, ◌%◌, compare, Ordering}
use Prim.Native.Char.{code}
use Prim.Native.String.{String}
use mathlib.Core.Path.{◌≡◌, refl}
use mathlib.Core.Logic.{◌↔◌, ◌≢◌, inl, inr}
use mathlib.Core.Bool.{Bool, true, false, ◌&&◌}
use mathlib.Core.List.{List, [], ◌∷◌, ◌++◌}
use native.Mathlib.Omega.{arith}
use logging_operator.Base.Lists.{All}
use logging_operator.Base.Tests.{ltb, if◌then◌else◌, Bool-cases}

abbrev pub Text : Type 0
Text = List ℕ

-- The code points of a literal.
unfoldable pub codes : String → Text
codes String.[] = []
codes (String.◌∷◌ c s) = code c ∷ codes s

abbrev pub nat_eq : ℕ → ℕ → Bool
nat_eq a b = elim (compare a b) [ Ordering.eq ↦ true | _ ↦ false ]

infix 50 ◌==◌
unfoldable pub ◌==◌ : Text → Text → Bool
◌==◌ [] [] = true
◌==◌ [] (y ∷ ys) = false
◌==◌ (x ∷ xs) [] = false
◌==◌ (x ∷ xs) (y ∷ ys) = nat_eq x y && (xs == ys)

eq_to : (a b : Text) → (a == b) ≡ true → a ≡ b
unfolding ◌==◌
eq_to [] [] h = refl
eq_to [] (y ∷ ys) h = cc
eq_to (x ∷ xs) [] h = cc
eq_to (x ∷ xs) (y ∷ ys) h = ground (arith, eq_to xs ys)

pub eq_refl : (a : Text) → (a == a) ≡ true
unfolding ◌==◌
eq_refl [] = refl
eq_refl (x ∷ xs) = ground (arith, eq_refl xs)

-- The test decides equality.
pub eq_iff : (a b : Text) → ((a == b) ≡ true) ↔ (a ≡ b)
eq_iff a b = (eq_to a b, λ e. rw e (eq_refl b))

pub eq_false : (a b : Text) → a ≢ b → (a == b) ≡ false
eq_false a b h = ground (arith, eq_iff a b)

-- `s == ""`
abbrev pub is_empty : Text → Bool
is_empty [] = true
is_empty (c ∷ s) = false

pub is_empty_iff : (s : Text) → (is_empty s ≡ true) ↔ (s ≡ [])
is_empty_iff [] = (λ _. refl, λ _. refl)
is_empty_iff (c ∷ s) = (λ h. cc, λ h. cc)

-- `a < b`
unfoldable pub text_lt : Text → Text → Bool
text_lt [] [] = false
text_lt [] (y ∷ ys) = true
text_lt (x ∷ xs) [] = false
text_lt (x ∷ xs) (y ∷ ys) = if ltb x y then true else if ltb y x then false else text_lt xs ys

-- `strings.HasPrefix(s, prefix)`
unfoldable pub has_prefix : Text → Text → Bool
has_prefix s [] = true
has_prefix [] (p ∷ ps) = false
has_prefix (c ∷ s) (p ∷ ps) = nat_eq c p && has_prefix s ps

pub has_prefix-nil : (s : Text) → has_prefix s [] ≡ true
unfolding has_prefix
has_prefix-nil [] = refl
has_prefix-nil (c ∷ s) = refl

decimal_fuel : ℕ → ℕ → Text → Text
decimal_fuel zero n out = out
decimal_fuel (suc f) n out =
    let rest = decimal_fuel f (n / 10) ((48 + n % 10) ∷ out) in
    if ltb n 10 then (48 + n) ∷ out else rest

-- `%d` of a number that is not negative: it has at most as many digits as its value plus one.
unfoldable pub decimal : ℕ → Text
unfolding decimal_fuel
decimal n = decimal_fuel (suc n) n []

decimal_fuel-All :
    (P : ℕ → Type 0)
    → ((d : ℕ) → d < 10 → P (48 + d))
    → (f n : ℕ) (out : Text) → All P out
    → All P (decimal_fuel f n out)
unfolding decimal_fuel
decimal_fuel-All P h zero n out o = o
decimal_fuel-All P h (suc f) n out o = elim (Bool-cases (ltb n 10)) [
  | inl p ↦ rw p (h n (ground arith), o)
  | inr p ↦ rw p (decimal_fuel-All P h f (n / 10) _ (h (n % 10) (omega arith), o))
]

-- What holds of the digits holds of all characters of a number.
pub decimal-All : (P : ℕ → Type 0) → ((d : ℕ) → d < 10 → P (48 + d)) → (n : ℕ) → All P (decimal n)
unfolding decimal
decimal-All P h n = decimal_fuel-All P h (suc n) n [] tt

-- `strings.Join(parts, sep)`
unfoldable pub join : List Text → Text → Text
join [] sep = []
join (p ∷ []) sep = p
join (p ∷ q ∷ ps) sep = p ++ sep ++ join (q ∷ ps) sep

add_char : ℕ → List Text → List Text
add_char c [] = (c ∷ []) ∷ []
add_char c (p ∷ ps) = (c ∷ p) ∷ ps

-- `strings.Split(s, sep)` for a separator of one character
unfoldable pub split_on : ℕ → Text → List Text
unfolding add_char
split_on sep [] = [] ∷ []
split_on sep (c ∷ s) = if nat_eq c sep then [] ∷ split_on sep s else add_char c (split_on sep s)

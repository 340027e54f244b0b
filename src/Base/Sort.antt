-- ===== src/Base/Sort.antt =====
-- `sort.Strings` and `sort.Slice`: insertion sort by a strict weak order.
pub mod Laws
use mathlib.Core.Path.{◌≡◌, refl, ap₂}
use mathlib.Core.Bool.{Bool, true, false}
use mathlib.Core.HLevel.{hedberg}
use mathlib.Core.List.{
  List, [], ◌∷◌, ◌++◌, Mem, Perm, Pairwise, Pairwise-singleton, forall_mem-cons, mem-cons_self,
}
use mathlib.Core.List.Pairwise
use mathlib.Core.List.Perm
use native.Mathlib.Omega.{arith}
use logging_operator.Base.Tests.{if◌then◌else◌, Bool-cases, ltb}
use mathlib.Core.Logic.{inl, inr}
use logging_operator.Base.Strings.{Text, text_lt}

module _ {ℓ} {A : Type ℓ} (less : A → A → Bool) where
  unfoldable pub insert_sorted : A → List A → List A
  insert_sorted x [] = x ∷ []
  insert_sorted x (y ∷ ys) = if less y x then y ∷ insert_sorted x ys else x ∷ y ∷ ys

  unfoldable pub sort_by : List A → List A
  unfolding insert_sorted
  sort_by [] = []
  sort_by (x ∷ xs) = insert_sorted x (sort_by xs)

-- `sort.Strings`
unfoldable pub sort_strings : List Text → List Text
unfolding sort_by text_lt
sort_strings = sort_by text_lt

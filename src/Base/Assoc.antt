-- ===== src/Base/Assoc.antt =====
-- `map[string]V` as an association list; its order stands for the order of Go's iteration.
pub mod Laws
use mathlib.Core.Path.{◌≡◌, refl, ap}
use mathlib.Core.Bool.{Bool, true, false}
use mathlib.Core.Option.{Option, none, some}
use mathlib.Core.List.{List, [], ◌∷◌, map}
use native.Mathlib.Omega.{arith}
use logging_operator.Base.Tests.{if◌then◌else◌}
use logging_operator.Base.Strings.{Text, ◌==◌, eq_iff}

abbrev pub Assoc {ℓ} : Type ℓ → Type ℓ
Assoc V = List (Text × V)

module _ {ℓ} {V : Type ℓ} where
  -- `m[key]` with its `ok`
  unfoldable pub lookup : Text → Assoc V → Option V
  lookup key [] = none
  lookup key ((name, value) ∷ rest) = if name == key then some value else lookup key rest

  -- `m[key] = value`
  unfoldable pub insert : Text → V → Assoc V → Assoc V
  insert key new [] = (key, new) ∷ []
  insert key new ((name, value) ∷ rest) =
      if name == key then (key, new) ∷ rest else (name, value) ∷ insert key new rest

  -- `delete(m, key)`
  unfoldable pub delete : Text → Assoc V → Assoc V
  delete key [] = []
  delete key ((name, value) ∷ rest) =
      let others = delete key rest in if name == key then others else (name, value) ∷ others

  abbrev pub keys : Assoc V → List Text
  keys [] = []
  keys ((name, value) ∷ rest) = name ∷ keys rest

  pub lookup-delete :
      (key other : Text) (m : Assoc V)
      → lookup other (delete key m) ≡ (if key == other then none else lookup other m)
  unfolding lookup delete
  lookup-delete key other [] = ground arith
  lookup-delete key other ((name, value) ∷ rest) =
      let later = lookup-delete key other rest in
      ground (arith, later, eq_iff name other, eq_iff name key, eq_iff key other)

  pub lookup-insert :
      (key other : Text) (new : V) (m : Assoc V)
      → lookup other (insert key new m) ≡ (if key == other then some new else lookup other m)
  unfolding lookup insert
  lookup-insert key other new [] = refl
  lookup-insert key other new ((name, value) ∷ rest) =
      let later = lookup-insert key other new rest in
      ground (arith, later, eq_iff name other, eq_iff name key, eq_iff key other)

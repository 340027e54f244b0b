-- ===== src/Base.antt =====
-- The names that the other modules share: the libraries', passed on, and those of the children.
mod Tests
mod Strings
pub mod Lists
pub mod Filter
pub mod Int
pub mod Sort
pub mod Assoc
pub use Tests.{ltb, leb, if◌then◌else◌, Bool-cases, lt_irrefl_test}
pub use Strings.{
  Text, nat_eq, eq_iff, eq_refl, eq_false, is_empty, is_empty_iff, has_prefix-nil, decimal-All,
}
unfoldable pub use Strings.{codes, ◌==◌, text_lt, has_prefix, decimal, join, split_on}
pub use Prim.Native.Nat.{ℕ, zero, suc, ◌+◌, ◌-◌, ◌*◌, ◌/◌, ◌%◌, ◌≤◌, ◌<◌}
pub use mathlib.Core.Path.{◌≡◌, refl, sym, ap, ◌∙◌, subst, fun_ext}
pub use mathlib.Core.Logic.{◌≢◌, ◌↔◌, ◌⊎◌, inl, inr}
pub use mathlib.Core.Bool.{Bool, true, false, not, ◌&&◌, ◌||◌}
pub use mathlib.Core.Option.{Option, none, some, some-injective}
pub use mathlib.Core.List.{List, [], ◌∷◌, ◌++◌, map, reverse, append-nil, append_assoc}
pub use native.Mathlib.Omega.{arith}

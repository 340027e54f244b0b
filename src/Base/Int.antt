-- ===== src/Base/Int.antt =====
-- Go's `int`, without its width: the code only prints these numbers and compares them with zero.
use Prim.Native.Nat.{ℕ, zero, suc}
use mathlib.Core.Bool.{Bool, true, false}
use mathlib.Core.List.{◌∷◌}
use logging_operator.Base.Strings.{Text, decimal}

-- `negsuc n` is -(n + 1).
pub data ℤ : Type 0 where
  pos : ℕ → ℤ
  negsuc : ℕ → ℤ

abbrev pub is_zero : ℤ → Bool
is_zero (pos zero) = true
is_zero _ = false

-- `%v`
unfoldable pub show : ℤ → Text
unfolding decimal
show (pos n) = decimal n
show (negsuc n) = b'-' ∷ decimal (suc n)

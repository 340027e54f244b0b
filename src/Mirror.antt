-- ===== src/Mirror.antt =====
-- pkg/mirror/struct_iter.go: the iterator over the fields of a struct. A value whose kind is not
-- Struct has no fields, and its iterator is nil.
pub mod Loop
use logging_operator.Base.{
  ℕ, zero, suc, ◌+◌, ltb, leb, Bool, true, false, Option, none, some, List, [], ◌∷◌, if◌then◌else◌,
}
use logging_operator.Base.Int.{ℤ, pos, negsuc}
use logging_operator.Base.Lists.{length, get_elem?}

pub record StructIter (F : Type 0) : Type 0 where
  pub fields : List F
  pub n : ℕ
  pub i : ℤ

pub new_struct_iter : {F : Type 0} → Option (List F) → Option (StructIter F)
new_struct_iter none = none
new_struct_iter (some fields) = some (record { fields = fields; n = length fields; i = negsuc 0 })

-- The index after the next step
succ : ℤ → ℤ
succ (pos i) = pos (suc i)
succ (negsuc zero) = pos 0
succ (negsuc (suc i)) = negsuc i

lt_nat : ℤ → ℕ → Bool
lt_nat (pos i) n = ltb i n
lt_nat (negsuc i) n = true

-- `Next`: the iterator and its answer; `none` is a panic, of a nil iterator or an exhausted one.
pub next : {F : Type 0} → Option (StructIter F) → Option (StructIter F × Bool)
unfolding succ lt_nat
next none = none
next (some it) =
    if lt_nat it.i it.n then some (record it { i = succ it.i }, lt_nat (succ it.i) it.n) else none

at_index : {F : Type 0} → List F → ℤ → Option F
at_index fields (negsuc i) = none
at_index fields (pos i) = get_elem? fields i

-- `Field` and `Value`, one entry here; `none` is a panic, before the first step or after the last.
field : {F : Type 0} → StructIter F → Option F
unfolding at_index lt_nat
field it = if lt_nat it.i it.n then at_index it.fields it.i else none

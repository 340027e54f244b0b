-- ===== src/Base/Assoc/Laws.antt =====
-- Go maps with the same contents: what is read from them by sorted keys is the same.
use mathlib.Core.Path.{◌≡◌, refl, sym}
use mathlib.Core.Logic.{◌≢◌, inl, inr}
use mathlib.Core.Logic.Or
use mathlib.Core.Bool.{false}
use mathlib.Core.Option.{none, some}
use mathlib.Core.List.{
  List, [], ◌∷◌, Mem, Perm, Nodup, perm_ext_iff_of_Nodup, mem-cons, not-mem-nil, Mem-prop,
  mem-cons_self, mem-cons_of_mem,
}
use logging_operator.Base.Tests.{Bool-cases}
use logging_operator.Base.Strings.{Text, ◌==◌, eq_iff, eq_refl}
use logging_operator.Base.Assoc.{Assoc, lookup, keys}
use logging_operator.Base.Sort.{sort_strings}
use logging_operator.Base.Sort.Laws.{sort_strings-eq_of_perm}

-- A member that differs from the head is in the tail.
tail_mem : (j k : Text) (l : List Text) → (j == k) ≡ false → Mem k (j ∷ l) → Mem k l
tail_mem j k l p h = Or.elim Mem-prop (mem-cons.0 h) (λ e. cc (p, (eq_iff j k).1 (sym e))) (λ m. m)

module _ {ℓ} {V : Type ℓ} where
  lookup_head : (k : Text) (v : V) (m : Assoc V) → lookup k ((k, v) ∷ m) ≡ some v
  unfolding lookup
  lookup_head k v m = rw (eq_refl k)

  pub mem-keys : (k : Text) (m : Assoc V) → lookup k m ≢ none → Mem k (keys m)
  unfolding lookup
  mem-keys k [] h = absurd (h refl)
  mem-keys k ((j, v) ∷ m) h = elim (Bool-cases (j == k)) [
    | inl p ↦ rw ((eq_iff j k).0 p) mem-cons_self
    | inr p ↦ mem-cons_of_mem j (mem-keys k m (rw p at h))
  ]

  pub lookup-ne-none : (k : Text) (m : Assoc V) → Mem k (keys m) → lookup k m ≢ none
  unfolding lookup
  lookup-ne-none k [] h = absurd (not-mem-nil h)
  lookup-ne-none k ((j, v) ∷ m) h = elim (Bool-cases (j == k)) [
    | inl p ↦ rw p (cc)
    | inr p ↦ rw p (lookup-ne-none k m (tail_mem j k (keys m) p h))
  ]

-- Two maps with one value for each key, whatever the order of iteration.
pub record SameMap {ℓ} {V : Type ℓ} (m n : Assoc V) : Type ℓ where
  pub left_keys : Nodup (keys m)
  pub right_keys : Nodup (keys n)
  pub values : (k : Text) → lookup k m ≡ lookup k n

module _ {ℓ} {V : Type ℓ} {m n : Assoc V} (s : SameMap m n) where
  pub keys-perm : Perm (keys m) (keys n)
  keys-perm = (perm_ext_iff_of_Nodup s.left_keys s.right_keys).1 λ k. (
    λ h. mem-keys k n (rw (← s.values k) (lookup-ne-none k m h)),
    λ h. mem-keys k m (rw (s.values k) (lookup-ne-none k n h)),
  )

  -- Sorted keys do not show the order of iteration.
  pub sorted_keys_eq : sort_strings (keys m) ≡ sort_strings (keys n)
  sorted_keys_eq = sort_strings-eq_of_perm keys-perm

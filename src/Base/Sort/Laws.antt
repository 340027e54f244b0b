-- ===== src/Base/Sort/Laws.antt =====
-- What sorting by a strict weak order gives: an ascending permutation, and only one.
use mathlib.Core.Path.{◌≡◌, refl, ap₂}
use mathlib.Core.Bool.{Bool, true, false, Bool-set}
use mathlib.Core.List.{
  List, [], ◌∷◌, Mem, Perm, Pairwise, Pairwise-singleton, forall_mem-cons, mem-cons_self,
  mem-cons_of_mem,
}
use mathlib.Core.Logic.{inl, inr}
use mathlib.Core.List.Pairwise
use mathlib.Core.List.Perm
use native.Mathlib.Omega.{arith}
use logging_operator.Base.Tests.{Bool-cases}
use logging_operator.Base.Strings.{Text, text_lt}
use logging_operator.Base.Sort.{insert_sorted, sort_by, sort_strings}

pub record IsOrder {ℓ} {A : Type ℓ} (less : A → A → Bool) : Type ℓ where
  pub asym : (a b : A) → less a b ≡ true → less b a ≡ false
  pub trans : (a b c : A) → less b a ≡ false → less c b ≡ false → less c a ≡ false

-- `a` is not above `b`.
abbrev pub NotAbove {ℓ} : {A : Type ℓ} → (A → A → Bool) → A → A → Type 0
NotAbove less a b = less b a ≡ false

-- Each element is not above any later one.
abbrev pub IsSorted {ℓ} : {A : Type ℓ} → (A → A → Bool) → List A → Type ℓ
IsSorted less = Pairwise (NotAbove less)

module _ {ℓ} {A : Type ℓ} {less : A → A → Bool} (o : IsOrder less) where
  abbrev pub IsBelow : A → List A → Type ℓ
  IsBelow u us = (x : A) → Mem x us → less x u ≡ false

  IsBelow-cons : {u v : A} {us : List A} → less v u ≡ false → IsBelow u us → IsBelow u (v ∷ us)
  IsBelow-cons {u} p h = (forall_mem-cons (λ x. Bool-set (less x u) false)).1 (p, h)

  IsBelow-perm : {u : A} {us vs : List A} → Perm us vs → IsBelow u vs → IsBelow u us
  IsBelow-perm p h x m = h x ((Perm.mem_iff p).0 m)

  IsBelow-head :
      {u v : A} {us : List A} → less v u ≡ false → IsSorted less (v ∷ us) → IsBelow u (v ∷ us)
  IsBelow-head {u} {v} p (Pairwise.cons h _) = IsBelow-cons p λ x m. o.trans u v x p (h x m)

  insert_sorted-perm : (x : A) (l : List A) → Perm (insert_sorted less x l) (x ∷ l)
  unfolding insert_sorted
  insert_sorted-perm x [] = Perm.rfl
  insert_sorted-perm x (y ∷ ys) = elim (Bool-cases (less y x)) [
    | inl p ↦ rw p (Perm.trans (Perm.cons y (insert_sorted-perm x ys)) (Perm.swap x y ys))
    | inr p ↦ rw p Perm.rfl
  ]

  insert_sorted-IsSorted :
      (x : A) {l : List A} → IsSorted less l → IsSorted less (insert_sorted less x l)
  unfolding insert_sorted
  insert_sorted-IsSorted x Pairwise.nil = Pairwise-singleton _ x
  insert_sorted-IsSorted x (Pairwise.cons {a = y} {l = ys} below s) = elim (Bool-cases (less y x)) [
    | inl p ↦ rw p (
        Pairwise.cons (IsBelow-perm (insert_sorted-perm x ys) (IsBelow-cons (o.asym y x p) below))
          (insert_sorted-IsSorted x s))
    | inr p ↦ let whole = Pairwise.cons below s in rw p (Pairwise.cons (IsBelow-head p whole) whole)
  ]

  pub sort_by-IsSorted : (l : List A) → IsSorted less (sort_by less l)
  unfolding sort_by
  sort_by-IsSorted [] = Pairwise.nil
  sort_by-IsSorted (x ∷ xs) = insert_sorted-IsSorted x (sort_by-IsSorted xs)

  pub sort_by-perm : (l : List A) → Perm (sort_by less l) l
  unfolding sort_by
  sort_by-perm [] = Perm.rfl
  sort_by-perm (x ∷ xs) =
      Perm.trans (insert_sorted-perm x (sort_by less xs)) (Perm.cons x (sort_by-perm xs))

  -- No two members of `us` are tied, unless they are equal.
  abbrev pub NoTies : List A → Type ℓ
  NoTies us = (u v : A) → Mem u us → Mem v us → less u v ≡ false → less v u ≡ false → u ≡ v

  irrefl : (u : A) → less u u ≡ false
  irrefl u = elim (Bool-cases (less u u)) [ inl p ↦ o.asym u u p | inr p ↦ p ]

  -- The head of a sorted list has no member below it.
  pub head_least : {u : A} {us : List A} → IsSorted less (u ∷ us) → IsBelow u (u ∷ us)
  head_least {u} s = IsBelow-head (irrefl u) s

  heads_le :
      {u v : A} {us vs : List A}
      → IsSorted less (u ∷ us)
      → Perm (v ∷ vs) (u ∷ us)
      → less v u ≡ false
  heads_le {u} {v} s p = IsBelow-perm p (IsBelow-head (irrefl u) s) v mem-cons_self

  pub IsSorted-eq_of_perm :
      {us vs : List A} → NoTies us → IsSorted less us → IsSorted less vs → Perm us vs → us ≡ vs
  IsSorted-eq_of_perm {us = []} _ _ _ p = Perm.nil-eq p
  IsSorted-eq_of_perm {us = u ∷ us} {vs = []} _ _ _ p = Perm.eq-nil p
  IsSorted-eq_of_perm {us = u ∷ us} {vs = v ∷ vs} ties sl sr p =
      let heads =
        ties u v mem-cons_self ((Perm.mem_iff p).1 mem-cons_self) (heads_le sr p)
          (heads_le sl (Perm.symm p)) in
      let tails = Perm.cons_inv (Perm.trans p (Perm.symm (Perm.cons' heads Perm.rfl))) in
      let untied = λ (x y : A) (mx : Mem x us) (my : Mem y us).
        ties x y (mem-cons_of_mem u mx) (mem-cons_of_mem u my) in
      ap₂ ◌∷◌ heads
        (IsSorted-eq_of_perm {us = us} untied (Pairwise.of_cons sl) (Pairwise.of_cons sr) tails)

  pub sort_by-eq_of_perm : {l r : List A} → NoTies l → Perm l r → sort_by less l ≡ sort_by less r
  sort_by-eq_of_perm {l} {r} anti p =
      IsSorted-eq_of_perm
        (λ a b ma mb.
          anti a b ((Perm.mem_iff (sort_by-perm l)).0 ma) ((Perm.mem_iff (sort_by-perm l)).0 mb))
        (sort_by-IsSorted l) (sort_by-IsSorted r)
        (Perm.trans (sort_by-perm l) (Perm.trans p (Perm.symm (sort_by-perm r))))

text_lt-asym : (a b : Text) → text_lt a b ≡ true → text_lt b a ≡ false
unfolding text_lt
text_lt-asym [] [] h = refl
text_lt-asym [] (y ∷ ys) h = refl
text_lt-asym (x ∷ xs) [] h = cc
text_lt-asym (x ∷ xs) (y ∷ ys) h = ground (arith, text_lt-asym xs ys)

text_lt_trans : (a b c : Text) → text_lt b a ≡ false → text_lt c b ≡ false → text_lt c a ≡ false
unfolding text_lt
text_lt_trans [] [] c h k = k
text_lt_trans [] (y ∷ ys) [] h k = refl
text_lt_trans [] (y ∷ ys) (z ∷ zs) h k = refl
text_lt_trans (x ∷ xs) [] c h k = cc
text_lt_trans (x ∷ xs) (y ∷ ys) [] h k = cc
text_lt_trans (x ∷ xs) (y ∷ ys) (z ∷ zs) h k = ground (arith, text_lt_trans xs ys zs)

-- Texts that are not ordered either way are equal.
pub text_lt-antisym : (a b : Text) → text_lt a b ≡ false → text_lt b a ≡ false → a ≡ b
unfolding text_lt
text_lt-antisym [] [] h k = refl
text_lt-antisym [] (y ∷ ys) h k = cc
text_lt-antisym (x ∷ xs) [] h k = cc
text_lt-antisym (x ∷ xs) (y ∷ ys) h k = ground (arith, text_lt-antisym xs ys)

pub text_lt-IsOrder : IsOrder text_lt
text_lt-IsOrder = record { asym = text_lt-asym; trans = text_lt_trans }

-- Sorting texts forgets the order in which they came.
pub sort_strings-eq_of_perm : {l r : List Text} → Perm l r → sort_strings l ≡ sort_strings r
unfolding sort_strings
sort_strings-eq_of_perm p = sort_by-eq_of_perm text_lt-IsOrder (λ a b _ _. text_lt-antisym a b) p

pub sort_strings-perm : (l : List Text) → Perm (sort_strings l) l
unfolding sort_strings
sort_strings-perm = sort_by-perm text_lt-IsOrder

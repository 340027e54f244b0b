-- ===== src/VolumePath/Uniq.antt =====
-- What `Uniq` returns.
use logging_operator.Base.{
  Text, eq_iff, eq_refl, ◌≡◌, refl, ap, false, not, ◌&&◌, Option, some, List, [], ◌∷◌, arith,
  Bool-cases, inl, inr,
}
use logging_operator.VolumePath.{contains, uniq_loop, uniq}

-- No text comes twice.
abbrev pub IsDistinct : List Text → Type 0
IsDistinct [] = Unit
IsDistinct (s ∷ l) = (contains s l ≡ false) × IsDistinct l

-- The result is a list with the same texts, each once.
pub record IsUniqOf (l : List Text) (result : Option (List Text)) : Type 0 where
  pub out : List Text
  pub returned : result ≡ some out
  pub distinct : IsDistinct out
  pub same : (s : Text) → contains s out ≡ contains s l

contains-of_eq : (s t : Text) (seen : List Text) → s ≡ t → contains s seen ≡ contains t seen
contains-of_eq s t seen e = ap (λ x. contains x seen) e

contains-uniq_loop :
    (s : Text) (seen l : List Text)
    → contains s (uniq_loop seen l) ≡ (contains s l && not (contains s seen))
unfolding contains uniq_loop
contains-uniq_loop s seen [] = refl
contains-uniq_loop s seen (t ∷ l) = elim (Bool-cases (contains t seen)) [
  | inl p ↦ ground (arith, p, eq_iff s t, contains-uniq_loop s seen l, contains-of_eq s t seen)
  | inr p ↦
      ground (arith, p, eq_iff s t, contains-uniq_loop s (t ∷ seen) l, contains-of_eq s t seen)
]

later_new : (t : Text) (seen l : List Text) → contains t (uniq_loop (t ∷ seen) l) ≡ false
unfolding contains
later_new t seen l = ground (arith, contains-uniq_loop t (t ∷ seen) l, eq_refl t)

uniq_loop-IsDistinct : (seen l : List Text) → IsDistinct (uniq_loop seen l)
unfolding uniq_loop
uniq_loop-IsDistinct seen [] = tt
uniq_loop-IsDistinct seen (t ∷ l) = elim (Bool-cases (contains t seen)) [
  | inl p ↦ rw (IsDistinct, p) (uniq_loop-IsDistinct seen l)
  | inr p ↦ rw (IsDistinct, p) (later_new t seen l, uniq_loop-IsDistinct (t ∷ seen) l)
]

-- `Uniq` returns the texts of a list, each once and no others.
pub uniq-IsUniqOf : (l : List Text) → IsUniqOf l (uniq (some l))
unfolding uniq contains
uniq-IsUniqOf l = record {
  out = uniq_loop [] l;
  returned = refl;
  distinct = uniq_loop-IsDistinct [] l;
  same = λ s. ground (arith, contains-uniq_loop s [] l);
}

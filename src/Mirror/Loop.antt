-- ===== src/Mirror/Loop.antt =====
-- The loop `for it.Next()` visits every field of the struct, once and in order.
use logging_operator.Base.{
  ℕ, zero, suc, ◌<◌, ltb, ◌≡◌, refl, sym, ap, ◌∙◌, true, false, Option, none, some, List, [], ◌∷◌,
  ◌++◌, arith, append_assoc,
}
use logging_operator.Base.Int.{pos}
use logging_operator.Base.Lists.{length, length-append, get_elem?-append}
use logging_operator.Mirror.{StructIter, new_struct_iter, next, field}

module _ {F : Type 0} where
  visit_field : Option F → Option (List F) → Option (List F)
  visit_field none rest = none
  visit_field (some f) none = none
  visit_field (some f) (some fs) = some (f ∷ fs)

  -- `for it.Next() { … it.Field() … }` on fuel: the fields that are read; `none` is a panic or the
  -- end of the fuel.
  pub visit_all : ℕ → Option (StructIter F) → Option (List F)
  unfolding next field visit_field
  visit_all zero it = none
  visit_all (suc fuel) it = elim (next it) [
    | none ↦ none
    | some (it', false) ↦ some []
    | some (it', true) ↦ visit_field (field it') (visit_all fuel (some it'))
  ]

  -- The iterator over `pre ++ rest` that was moved onto the first of `rest`, or behind the end
  abbrev moved : List F → List F → StructIter F
  moved pre rest = record { fields = pre ++ rest; n = length (pre ++ rest); i = pos (length pre) }

  after : List F → F → List F → StructIter F
  after pre x rest = record {
    fields = pre ++ x ∷ rest;
    n = length (pre ++ x ∷ rest);
    i = pos (suc (length pre));
  }

  in_bounds :
      (pre : List F) (x : F) (rest : List F) → ltb (length pre) (length (pre ++ x ∷ rest)) ≡ true
  in_bounds pre x rest = ground (arith, length-append pre (x ∷ rest))

  at_end : (pre : List F) (x : F) → ltb (suc (length pre)) (length (pre ++ x ∷ [])) ≡ false
  at_end pre x = ground (arith, length-append pre (x ∷ []))

  not_at_end :
      (pre : List F) (x y : F) (rest : List F)
      → ltb (suc (length pre)) (length (pre ++ x ∷ y ∷ rest)) ≡ true
  not_at_end pre x y rest = ground (arith, length-append pre (x ∷ y ∷ rest))

  field-moved : (pre : List F) (x : F) (rest : List F) → field (moved pre (x ∷ rest)) ≡ some x
  unfolding field
  field-moved pre x rest = rw (in_bounds pre x rest) (get_elem?-append pre x rest)

  after-moved :
      (pre : List F) (x y : F) (rest : List F)
      → after pre x (y ∷ rest) ≡ moved (pre ++ x ∷ []) (y ∷ rest)
  unfolding after
  after-moved pre x y rest =
      let lists : pre ++ x ∷ y ∷ rest ≡ (pre ++ x ∷ []) ++ y ∷ rest =
        sym (append_assoc pre (x ∷ []) (y ∷ rest)) in
      let lengths : suc (length pre) ≡ length (pre ++ x ∷ []) =
        omega (arith, length-append pre (x ∷ [])) in
      cc (lists, lengths)

  next-last :
      (pre : List F) (x : F) → next (some (moved pre (x ∷ []))) ≡ some (after pre x [], false)
  unfolding next after
  next-last pre x = rw (in_bounds pre x []) (rw (at_end pre x) refl)

  next-inner :
      (pre : List F) (x y : F) (rest : List F)
      → next (some (moved pre (x ∷ y ∷ rest))) ≡ some (moved (pre ++ x ∷ []) (y ∷ rest), true)
  next-inner pre x y rest =
      let step : next (some (moved pre (x ∷ y ∷ rest))) ≡ some (after pre x (y ∷ rest), true) =
        unfold next after in rw (in_bounds pre x (y ∷ rest)) (rw (not_at_end pre x y rest) refl) in
      step ∙ ap (λ it. some (it, true)) (after-moved pre x y rest)

  visit_from :
      (pre : List F) (x : F) (rest : List F) (fuel : ℕ)
      → length rest < fuel
      → visit_all fuel (some (moved pre (x ∷ rest))) ≡ some rest
  unfolding visit_all
  visit_from pre x rest zero h = absurd (omega arith)
  visit_from pre x [] (suc fuel) h = rw (visit_all, next-last pre x) refl
  visit_from pre x (y ∷ rest) (suc fuel) h =
      rw (visit_all, next-inner pre x y rest)
        (rw (field-moved (pre ++ x ∷ []) y rest) (
          rw (visit_from (pre ++ x ∷ []) y rest fuel (omega (arith, h)))
            (unfold visit_field in refl)))

  next-first :
      (x : F) (rest : List F)
      → next (new_struct_iter (some (x ∷ rest))) ≡ some (moved [] (x ∷ rest), true)
  unfolding next new_struct_iter
  next-first x rest = rw (in_bounds [] x rest) refl

  visit_some :
      (x : F) (rest : List F)
      → visit_all (suc (suc (length rest))) (new_struct_iter (some (x ∷ rest))) ≡ some (x ∷ rest)
  unfolding visit_all
  visit_some x rest =
      rw (visit_all, next-first x rest)
        (rw (field-moved [] x rest) (
          rw (visit_from [] x rest (suc (length rest)) (omega arith)) (unfold visit_field in refl)))

  -- The loop over the iterator of a struct reads every field, once and in order, and no call of it
  -- panics; there is one call of `Next` for each field, and one that ends the loop.
  pub visit_all-struct :
      (fields : List F)
      → visit_all (suc (length fields)) (new_struct_iter (some fields)) ≡ some fields
  unfolding new_struct_iter visit_all next
  visit_all-struct [] = refl
  visit_all-struct (x ∷ fields) = visit_some x fields

-- ===== src/Annotation/Valid.antt =====
-- The parts of a descriptor that is valid.
use logging_operator.Base.{
  ℕ, Text, ◌≡◌, refl, sym, ap, ◌∙◌, Bool, true, false, List, [], ◌∷◌, ◌++◌, is_empty, not,
  append_assoc, append-nil, arith, Bool-cases, inl, inr,
}
use logging_operator.Annotation.{
  nat_eq, in_range, is_path_char, is_name_char, path_rest, is_path, named_path, is_descriptor,
  finish_field, fields_loop, fields_func,
}

abbrev pub colon : ℕ
colon = b':'

nat_eq-eq : (a b : ℕ) → nat_eq a b ≡ true → a ≡ b
unfolding nat_eq
nat_eq-eq a b h = ground (arith, h)

not_colon : is_path_char colon ≡ false
unfolding is_path_char is_name_char in_range nat_eq
not_colon = refl

is_path_char-colon : (c : ℕ) → is_path_char c ≡ true → nat_eq c colon ≡ false
is_path_char-colon c h = elim (Bool-cases (nat_eq c colon)) [
  | inl p ↦ absurd (cc (h, nat_eq-eq c colon p, not_colon))
  | inr p ↦ p
]

is_name_char-colon : (c : ℕ) → is_name_char c ≡ true → nat_eq c colon ≡ false
unfolding is_path_char
is_name_char-colon c h = is_path_char-colon c (rw h refl)

slash-colon : (c : ℕ) → nat_eq c b'/' ≡ true → nat_eq c colon ≡ false
unfolding nat_eq
slash-colon c h = rw (nat_eq-eq c b'/' h) refl

path_rest-step :
    (some_char : Bool) (c : ℕ) (s : Text)
    → path_rest some_char (c ∷ s) ≡ true
    → (nat_eq c colon ≡ false) × (b : Bool) × (path_rest b s ≡ true)
unfolding path_rest
path_rest-step some_char c s h = elim (Bool-cases (nat_eq c b'/')) [
  | inl p ↦ (slash-colon c p, false, ground (arith, p, h))
  | inr p ↦ (is_path_char-colon c (ground (arith, p, h)), true, ground (arith, p, h))
]

-- A path has no colon, so it is one field.
fields-path :
    (some_char : Bool) (cur s : Text)
    → path_rest some_char s ≡ true
    → fields_loop colon cur s ≡ finish_field (cur ++ s) []
unfolding fields_loop
fields-path some_char cur [] h = ap (λ t. finish_field t []) (sym (append-nil cur))
fields-path some_char cur (c ∷ s) h =
    let (other, b, rest) = path_rest-step some_char c s h in
    rw other (
      fields-path b (cur ++ c ∷ []) s rest
      ∙ ap (λ t. finish_field t []) (append_assoc cur (c ∷ []) s))

is_path-fields : (s : Text) → is_path s ≡ true → fields_loop colon [] s ≡ s ∷ []
unfolding is_path fields_loop finish_field
is_path-fields [] h = cc
is_path-fields (c ∷ s) h =
    let first : nat_eq c b'/' ≡ true = ground (arith, h) in
    rw (slash-colon c first) (fields-path false (c ∷ []) s (ground (arith, h)))

-- What a descriptor is split into: a path, or a name and a path
pub data IsSplit : List Text → Type 0 where
  only_path : (p : Text) → is_path p ≡ true → IsSplit (p ∷ [])
  name_and_path : (name p : Text) → is_path p ≡ true → IsSplit (name ∷ p ∷ [])

is_empty-snoc : (cur : Text) (c : ℕ) → is_empty (cur ++ c ∷ []) ≡ false
is_empty-snoc [] c = refl
is_empty-snoc (d ∷ cur) c = refl

finish-IsSplit :
    (cur s : Text) → is_empty cur ≡ false → is_path s ≡ true → IsSplit (finish_field cur (s ∷ []))
unfolding finish_field
finish-IsSplit [] s e h = cc
finish-IsSplit (c ∷ cur) s e h = name_and_path (c ∷ cur) s h

named-IsSplit :
    (some_char : Bool) (cur s : Text)
    → is_empty cur ≡ not some_char
    → named_path some_char s ≡ true
    → IsSplit (fields_loop colon cur s)
unfolding named_path fields_loop finish_field
named-IsSplit some_char cur [] e h = cc
named-IsSplit some_char cur (c ∷ s) e h = elim (Bool-cases (nat_eq c colon)) [
  | inl p ↦
      let path : is_path s ≡ true = ground (arith, p, h) in
      rw (p, is_path-fields s path) (finish-IsSplit cur s (ground (arith, p, h, e)) path)
  | inr p ↦ rw p (named-IsSplit true (cur ++ c ∷ []) s (is_empty-snoc cur c) (ground (arith, p, h)))
]

-- A descriptor that is accepted is split into a path, or into a name and a path.
pub descriptor-IsSplit : (t : Text) → is_descriptor t ≡ true → IsSplit (fields_func colon t)
unfolding is_descriptor fields_func
descriptor-IsSplit t h = elim (Bool-cases (is_path t)) [
  | inl p ↦ rw (is_path-fields t p) (only_path t p)
  | inr p ↦ named-IsSplit false [] t refl (ground (arith, p, h))
]

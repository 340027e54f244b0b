-- ===== src/VolumePath/Escape.antt =====
-- What the names that are made of paths consist of.
use logging_operator.Base.{
  ℕ, Text, ◌≡◌, refl, true, [], ◌∷◌, map, arith, Bool-cases, inl, inr, codes, join,
}
use logging_operator.Base.Lists.{length, length-map, All}
use logging_operator.VolumePath.{
  is_dns, lower_rune, escape_rune, escape_dns1123, path_parts, convert_file_path,
}

abbrev pub IsDns : ℕ → Type 0
IsDns c = is_dns c ≡ true

escape_rune-IsDns : (lower : ℕ → ℕ) (c : ℕ) → IsDns (escape_rune lower c)
unfolding escape_rune
escape_rune-IsDns lower c = elim (Bool-cases (is_dns (lower_rune lower c))) [
  | inl p ↦ rw p p
  | inr p ↦ rw p (unfold is_dns in refl)
]

escape-All : (lower : ℕ → ℕ) (t : Text) → All IsDns (map (escape_rune lower) t)
escape-All lower [] = tt
escape-All lower (c ∷ t) = (escape_rune-IsDns lower c, escape-All lower t)

escape-own : (lower : ℕ → ℕ) (c : ℕ) → IsDns c → escape_rune lower c ≡ c
unfolding escape_rune lower_rune is_dns
escape-own lower c h = ground arith

escaped_twice :
    (lower : ℕ → ℕ) (t : Text)
    → map (escape_rune lower) (map (escape_rune lower) t) ≡ map (escape_rune lower) t
escaped_twice lower [] = refl
escaped_twice lower (c ∷ t) =
    cc (escape-own lower (escape_rune lower c) (escape_rune-IsDns lower c), escaped_twice lower t)

-- The name of a side car is made of `-`, `a` to `z` and `0` to `9`, whatever the path of the file,
-- and however `unicode.ToLower` goes on above ASCII.
pub convert_file_path-All : (lower : ℕ → ℕ) (path : Text) → All IsDns (convert_file_path lower path)
unfolding convert_file_path escape_dns1123
convert_file_path-All lower path = escape-All lower (join (path_parts path) (codes "-"))

-- Escaping keeps the number of characters, and a second escaping changes nothing.
pub escape_dns1123_idem :
    (lower : ℕ → ℕ) (t : Text)
    → (length (escape_dns1123 lower t) ≡ length t)
      × (escape_dns1123 lower (escape_dns1123 lower t) ≡ escape_dns1123 lower t)
unfolding escape_dns1123
escape_dns1123_idem lower t = (length-map (escape_rune lower) t, escaped_twice lower t)

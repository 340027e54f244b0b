-- ===== src/VolumePath.antt =====
-- pkg/resources/volumepath/volumepath.go: lists of paths. A nil `*List` or a nil `ApplyFn` is `none`.
pub mod Uniq
pub mod Apply
pub mod TopLevel
pub mod Escape
use logging_operator.Base.{
  ℕ, zero, suc, ◌+◌, ltb, leb, Text, codes, ◌==◌, is_empty, has_prefix, join, split_on, Bool, true,
  false, not, ◌&&◌, ◌||◌, Option, none, some, List, [], ◌∷◌, ◌++◌, map, if◌then◌else◌,
}
use logging_operator.Base.Lists.{length, get_elem?}
use logging_operator.Base.Sort.{sort_by}

abbrev pub ApplyFn : Type 0
ApplyFn = List Text → ℕ → Option Text

-- `append(result, *fnRes)`, in front of what the later rounds append
unfoldable pub prepend : Option Text → List Text → List Text
prepend none rest = rest
prepend (some t) rest = t ∷ rest

-- The loop of `Apply`: the third argument counts the rounds, the last one is what is left.
apply_loop : ApplyFn → List Text → ℕ → List Text → List Text
unfolding prepend
apply_loop fn l index [] = []
apply_loop fn l index (x ∷ rest) = prepend (fn l index) (apply_loop fn l (suc index) rest)

unfoldable pub apply : Option ApplyFn → Option (List Text) → Option (List Text)
unfolding apply_loop
apply none l = l
apply (some fn) none = none
apply (some fn) (some l) = some (apply_loop fn l 0 l)

-- `fn(strs[index])`, which is all that the functions below read
unfoldable pub at : (Text → Option Text) → ApplyFn
at f strs index = elim (get_elem? strs index) [ none ↦ none | some s ↦ f s ]

pub contains : Text → List Text → Bool
contains s [] = false
contains s (t ∷ ts) = s == t || contains s ts

-- `Uniq`: the closure's map is the list of what was seen.
uniq_loop : List Text → List Text → List Text
unfolding contains
uniq_loop seen [] = []
uniq_loop seen (s ∷ rest) = elim (contains s seen) [
  | true ↦ uniq_loop seen rest
  | false ↦ s ∷ uniq_loop (s ∷ seen) rest
]

unfoldable pub uniq : Option (List Text) → Option (List Text)
unfolding uniq_loop
uniq none = none
uniq (some l) = some (uniq_loop [] l)

unfoldable pub first : Option (List Text) → Option Text
first (some (s ∷ l)) = some s
first _ = none

pub last : Option (List Text) → Option Text
last none = none
last (some []) = none
last (some (s ∷ [])) = some s
last (some (s ∷ t ∷ l)) = last (some (t ∷ l))

shorter : Text → Text → Bool
shorter a b = ltb (length a) (length b)

keep_prefix : Text → Text → Option Text
keep_prefix path str = if has_prefix path str then some str else none

sort_matches : Option (List Text) → Option (List Text)
sort_matches none = none
sort_matches (some l) = some (sort_by shorter l)

-- The shortest element of the list with which a path begins
pub top_level_path : List Text → Text → Option Text
unfolding apply at keep_prefix sort_matches shorter sort_by first
top_level_path l path = first (sort_matches (apply (some (at (keep_prefix path))) (some l)))

-- A nil list is returned as it is.
unfoldable pub top_level_path_list : Option (List Text) → Option (List Text)
unfolding apply at top_level_path
top_level_path_list none = none
top_level_path_list (some l) = apply (some (at (top_level_path l))) (some l)

nat_eq : ℕ → ℕ → Bool
nat_eq a b = leb a b && leb b a

-- The regular expression "/.+", anywhere in the text: a slash before a character of the same line
matches_path : Text → Bool
unfolding nat_eq
matches_path [] = false
matches_path (c ∷ []) = false
matches_path (c ∷ d ∷ s) = (nat_eq c b'/' && not (nat_eq d b'\n')) || matches_path (d ∷ s)

keep_path : Text → Option Text
keep_path s = if matches_path s then some s else none

or_paths : Option ApplyFn → ApplyFn
unfolding at keep_path matches_path
or_paths none = at keep_path
or_paths (some validator) = validator

-- `RemoveInvalidPath`; with no validator the paths are those of the regular expression.
unfoldable pub remove_invalid_path : Option ApplyFn → Option (List Text) → Option (List Text)
unfolding apply or_paths
remove_invalid_path validator none = none
remove_invalid_path validator (some l) = apply (some (or_paths validator)) (some l)

drop_empty : List Text → List Text
drop_empty [] = []
drop_empty ([] ∷ ps) = drop_empty ps
drop_empty ((c ∷ p) ∷ ps) = (c ∷ p) ∷ drop_empty ps

behind_first : List Text → List Text
unfolding drop_empty
behind_first [] = []
behind_first (p ∷ ps) = drop_empty ps

-- The groups of "/([^/]+)": what stands behind a slash, up to the next one, and is not empty
path_parts : Text → List Text
unfolding behind_first split_on
path_parts path = behind_first (split_on b'/' path)

-- `unicode.ToLower`, where `lower` is its table above ASCII
lower_rune : (ℕ → ℕ) → ℕ → ℕ
lower_rune lower c = if ltb c 128 then (if leb b'A' c && leb c b'Z' then c + 32 else c) else lower c

-- The class [-a-z0-9]
pub is_dns : ℕ → Bool
unfolding nat_eq
is_dns c = nat_eq c b'-' || (leb b'a' c && leb c b'z') || (leb b'0' c && leb c b'9')

escape_rune : (ℕ → ℕ) → ℕ → ℕ
unfolding lower_rune is_dns
escape_rune lower c = let d = lower_rune lower c in if is_dns d then d else b'-'

pub escape_dns1123 : (ℕ → ℕ) → Text → Text
unfolding escape_rune
escape_dns1123 lower name = map (escape_rune lower) name

unfoldable pub convert_file_path : (ℕ → ℕ) → Text → Text
unfolding escape_dns1123 path_parts join
convert_file_path lower path = escape_dns1123 lower (join (path_parts path) (codes "-"))

-- ===== src/Annotation.antt =====
-- pkg/resources/annotation/annotation.go: which files of which container are tailed.
pub mod Valid
pub mod Paths
use logging_operator.Base.{
  ℕ, ltb, leb, Text, codes, ◌==◌, is_empty, Bool, true, false, not, ◌&&◌, ◌||◌, Option, none, some,
  List, [], ◌∷◌, ◌++◌, if◌then◌else◌,
}
use logging_operator.Base.Assoc.{Assoc, lookup, insert}

pub record Config : Type 0 where
  pub descriptor_delimiter : ℕ
  pub annotation_delimiter : ℕ

-- `defaults`; its pattern is `is_descriptor` below.
abbrev pub defaults : Config
defaults = record { descriptor_delimiter = b':'; annotation_delimiter = b',' }

pub record Handler : Type 0 where
  pub config : Config
  pub container_paths : Assoc (List Text)
  pub default_container_name : Text

-- A path for each container, none at first; the first container is the default.
empty_paths : List Text → Assoc (List Text) → Assoc (List Text)
unfolding insert
empty_paths [] m = m
empty_paths (c ∷ cs) m = empty_paths cs (insert c [] m)

first_name : List Text → Text
first_name [] = []
first_name (c ∷ cs) = c

pub new_handler : List Text → Handler
unfolding empty_paths first_name
new_handler names = record {
  config = defaults;
  container_paths = empty_paths names [];
  default_container_name = first_name names;
}

pub nat_eq : ℕ → ℕ → Bool
nat_eq a b = leb a b && leb b a

in_range : ℕ → ℕ → ℕ → Bool
in_range lo hi c = leb lo c && leb c hi

-- The class [a-zA-Z0-9-_]
is_name_char : ℕ → Bool
unfolding in_range nat_eq
is_name_char c =
    in_range b'a' b'z' c
    || in_range b'A' b'Z' c
    || in_range b'0' b'9' c
    || nat_eq c b'-'
    || nat_eq c b'_'

-- The class [a-zA-Z-0-9._-]
is_path_char : ℕ → Bool
unfolding is_name_char nat_eq
is_path_char c = is_name_char c || nat_eq c b'.'

-- (/[a-zA-Z-0-9._-]+)+$ behind a slash, with or without a character after it
path_rest : Bool → Text → Bool
unfolding is_path_char nat_eq
path_rest some_char [] = some_char
path_rest some_char (c ∷ s) =
    if nat_eq c b'/' then some_char && path_rest false s else is_path_char c && path_rest true s

-- (/[a-zA-Z-0-9._-]+)+$
pub is_path : Text → Bool
unfolding path_rest nat_eq
is_path [] = false
is_path (c ∷ s) = nat_eq c b'/' && path_rest false s

-- [a-zA-Z0-9-_]+: and then a path; the test says whether there was a character of the name.
named_path : Bool → Text → Bool
unfolding is_path is_name_char nat_eq
named_path some_char [] = false
named_path some_char (c ∷ s) =
    if nat_eq c b':' then some_char && is_path s else is_name_char c && named_path true s

-- `validateTailerDescriptor`: ^([a-zA-Z0-9-_]+:)?(/[a-zA-Z-0-9._-]+)+$
pub is_descriptor : Text → Bool
unfolding is_path named_path
is_descriptor t = is_path t || named_path false t

-- `unicode.IsSpace`
is_space : ℕ → Bool
unfolding in_range nat_eq
is_space c =
    in_range 9 13 c
    || nat_eq c 32
    || nat_eq c 0x85
    || nat_eq c 0xa0
    || nat_eq c 0x1680
    || in_range 0x2000 0x200a c
    || nat_eq c 0x2028
    || nat_eq c 0x2029
    || nat_eq c 0x202f
    || nat_eq c 0x205f
    || nat_eq c 0x3000

drop_space : Text → Text
unfolding is_space
drop_space [] = []
drop_space (c ∷ s) = if is_space c then drop_space s else c ∷ s

keep_unless_empty : ℕ → Text → Text
unfolding is_space
keep_unless_empty c [] = if is_space c then [] else c ∷ []
keep_unless_empty c (d ∷ s) = c ∷ d ∷ s

drop_space_end : Text → Text
unfolding keep_unless_empty
drop_space_end [] = []
drop_space_end (c ∷ s) = keep_unless_empty c (drop_space_end s)

-- `strings.TrimFunc(s, unicode.IsSpace)`
trim_space : Text → Text
unfolding drop_space drop_space_end
trim_space s = drop_space_end (drop_space s)

finish_field : Text → List Text → List Text
finish_field [] fields = fields
finish_field (c ∷ cur) fields = (c ∷ cur) ∷ fields

-- The field that is being read is first.
fields_loop : ℕ → Text → Text → List Text
unfolding finish_field nat_eq
fields_loop sep cur [] = finish_field cur []
fields_loop sep cur (c ∷ s) =
    if nat_eq c sep
    then finish_field cur (fields_loop sep [] s)
    else fields_loop sep (cur ++ c ∷ []) s

-- `strings.FieldsFunc`: the parts between the separators that are not empty
pub fields_func : ℕ → Text → List Text
unfolding fields_loop
fields_func sep s = fields_loop sep [] s

-- `append(h.containerPaths[name], path)`; a missing key is nil.
add_path : Text → Text → Handler → Handler
unfolding lookup insert
add_path name path h =
    let paths : List Text = elim (lookup name h.container_paths) [ none ↦ [] | some ps ↦ ps ] in
    record h { container_paths = insert name (paths ++ path ∷ []) h.container_paths }

-- The switch on the number of elements
add_elements : Handler → List Text → Handler
unfolding add_path lookup
add_elements h (path ∷ []) = add_path h.default_container_name path h
add_elements h (name ∷ path ∷ []) = elim (lookup name h.container_paths) [
  | none ↦ h
  | some ps ↦ add_path name path h
]
add_elements h _ = h

no_paths : Assoc (List Text) → Bool
no_paths [] = true
no_paths (kv ∷ m) = false

add_tailer_descriptor : Handler → Text → Handler
unfolding no_paths trim_space is_descriptor fields_func add_elements
add_tailer_descriptor h descriptor =
    if is_empty h.default_container_name || no_paths h.container_paths
    then h
    else let trimmed = trim_space descriptor in
      if is_descriptor trimmed
      then add_elements h (fields_func h.config.descriptor_delimiter trimmed)
      else h

add_all : Handler → List Text → Handler
unfolding add_tailer_descriptor
add_all h [] = h
add_all h (d ∷ ds) = add_all (add_tailer_descriptor h d) ds

pub add_tailer_annotation : Handler → Text → Handler
unfolding add_all fields_func
add_tailer_annotation h annotation =
    add_all h (fields_func h.config.annotation_delimiter annotation)

-- `FilePathsForContainer`; "" is the default container.
pub file_paths_for_container : Handler → Text → List Text
unfolding lookup
file_paths_for_container h name =
    elim (lookup (if is_empty name then h.default_container_name else name) h.container_paths) [
      | none ↦ []
      | some paths ↦ paths
    ]

all_of : Assoc (List Text) → List Text
all_of [] = []
all_of ((c, paths) ∷ m) = paths ++ all_of m

all_file_paths : Handler → List Text
unfolding all_of
all_file_paths h = all_of h.container_paths

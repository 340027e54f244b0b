-- ===== src/Annotation/Paths.antt =====
-- What a handler holds after an annotation.
use logging_operator.Base.{
  Text, ◌==◌, is_empty, ◌≡◌, refl, subst, true, ◌||◌, Option, none, some, List, [], ◌∷◌, ◌++◌,
  Bool-cases, inl, inr,
}
use logging_operator.Base.Assoc.{Assoc, lookup, insert}
use logging_operator.Base.Lists.{All, All-append}
use logging_operator.Annotation.{
  Handler, empty_paths, new_handler, is_path, is_descriptor, no_paths, trim_space, fields_func,
  add_path, add_elements, add_tailer_descriptor, add_all, add_tailer_annotation,
  file_paths_for_container,
}
use logging_operator.Annotation.Valid.{IsSplit, only_path, name_and_path, descriptor-IsSplit, colon}

abbrev pub IsPath : Text → Type 0
IsPath p = is_path p ≡ true

abbrev Paths : Text × List Text → Type 0
Paths e = All IsPath e.1

insert-Paths :
    (name : Text) (paths : List Text) (m : Assoc (List Text))
    → All IsPath paths
    → All Paths m
    → All Paths (insert name paths m)
unfolding insert
insert-Paths name paths [] h k = (h, tt)
insert-Paths name paths ((c, ps) ∷ m) h (k, ks) = elim (Bool-cases (c == name)) [
  | inl p ↦ rw (All, p) (h, ks)
  | inr p ↦ rw (All, p) (k, insert-Paths name paths m h ks)
]

some_injective : {A : Type 0} {a b : A} → some a ≡ some b → a ≡ b
some_injective e = cc

lookup-Paths :
    (name : Text) (m : Assoc (List Text)) (ps : List Text)
    → All Paths m
    → lookup name m ≡ some ps
    → All IsPath ps
unfolding lookup
lookup-Paths name [] ps k h = absurd (cc)
lookup-Paths name ((c, qs) ∷ m) ps (k, ks) h = elim (Bool-cases (c == name)) [
  | inl p ↦ subst (All IsPath) (some_injective (rw p at h)) k
  | inr p ↦ lookup-Paths name m ps ks (rw p at h)
]

found-Paths :
    (name path : Text) (h : Handler) (o : Option (List Text))
    → IsPath path
    → All Paths h.container_paths
    → lookup name h.container_paths ≡ o
    → All Paths (insert name ((elim o [ none ↦ [] | some ps ↦ ps ]) ++ path ∷ []) h.container_paths)
found-Paths name path h none p k e = insert-Paths name (path ∷ []) h.container_paths (p, tt) k
found-Paths name path h (some ps) p k e =
    insert-Paths name (ps ++ path ∷ []) h.container_paths
      (All-append IsPath ps (path ∷ []) (lookup-Paths name h.container_paths ps k e) (p, tt)) k

add_path-Paths :
    (name path : Text) (h : Handler)
    → IsPath path
    → All Paths h.container_paths
    → All Paths (add_path name path h).container_paths
unfolding add_path
add_path-Paths name path h p k = found-Paths name path h (lookup name h.container_paths) p k refl

-- The paths of the handler are paths, and its descriptors are split at colons.
record IsValid (h : Handler) : Type 0 where
  delimiter : h.config.descriptor_delimiter ≡ colon
  paths : All Paths h.container_paths

add_path-IsValid :
    (name path : Text) (h : Handler) → IsPath path → IsValid h → IsValid (add_path name path h)
unfolding add_path
add_path-IsValid name path h p v = record {
  delimiter = v.delimiter;
  paths = found-Paths name path h (lookup name h.container_paths) p v.paths refl;
}

named-IsValid :
    (name path : Text) (h : Handler) (o : Option (List Text))
    → IsPath path
    → IsValid h
    → IsValid (elim o [ none ↦ h | some ps ↦ add_path name path h ])
named-IsValid name path h none p v = v
named-IsValid name path h (some ps) p v = add_path-IsValid name path h p v

add_elements-IsValid :
    (h : Handler) (fields : List Text)
    → IsSplit fields
    → IsValid h
    → IsValid (add_elements h fields)
unfolding add_elements
add_elements-IsValid h fields (only_path p w) v = add_path-IsValid h.default_container_name p h w v
add_elements-IsValid h fields (name_and_path name p w) v =
    named-IsValid name p h (lookup name h.container_paths) w v

accepted-IsSplit :
    (h : Handler) (d : Text)
    → IsValid h
    → is_descriptor (trim_space d) ≡ true
    → IsSplit (fields_func h.config.descriptor_delimiter (trim_space d))
accepted-IsSplit h d v q = rw v.delimiter (descriptor-IsSplit (trim_space d) q)

add_tailer_descriptor-IsValid :
    (h : Handler) (d : Text) → IsValid h → IsValid (add_tailer_descriptor h d)
unfolding add_tailer_descriptor
add_tailer_descriptor-IsValid h d v =
    elim (Bool-cases (is_empty h.default_container_name || no_paths h.container_paths)) [
      | inl p ↦ rw p v
      | inr p ↦ elim (Bool-cases (is_descriptor (trim_space d))) [
        | inl q ↦ rw (p, q) (add_elements-IsValid h _ (accepted-IsSplit h d v q) v)
        | inr q ↦ rw (p, q) v
      ]
    ]

add_all-IsValid : (h : Handler) (ds : List Text) → IsValid h → IsValid (add_all h ds)
unfolding add_all
add_all-IsValid h [] v = v
add_all-IsValid h (d ∷ ds) v =
    add_all-IsValid (add_tailer_descriptor h d) ds (add_tailer_descriptor-IsValid h d v)

empty_paths-Paths :
    (cs : List Text) (m : Assoc (List Text)) → All Paths m → All Paths (empty_paths cs m)
unfolding empty_paths
empty_paths-Paths [] m k = k
empty_paths-Paths (c ∷ cs) m k = empty_paths-Paths cs (insert c [] m) (insert-Paths c [] m tt k)

annotated-IsValid :
    (names : List Text) (annotation : Text)
    → IsValid (add_tailer_annotation (new_handler names) annotation)
unfolding add_tailer_annotation new_handler
annotated-IsValid names annotation =
    add_all-IsValid (new_handler names)
      (fields_func (new_handler names).config.annotation_delimiter annotation)
      (record { delimiter = refl; paths = empty_paths-Paths names [] tt })

looked_up-Paths :
    (name : Text) (m : Assoc (List Text)) (o : Option (List Text))
    → All Paths m
    → lookup name m ≡ o
    → All IsPath (elim o [ none ↦ [] | some ps ↦ ps ])
looked_up-Paths name m none k e = tt
looked_up-Paths name m (some ps) k e = lookup-Paths name m ps k e

-- Whatever an annotation says, and whatever the containers of the pod are called, the files that
-- are tailed for a container are absolute paths: parts of letters, digits, `.`, `_` and `-`, each
-- behind one slash.
pub annotated-All :
    (names : List Text) (annotation container : Text)
    → All IsPath
        (file_paths_for_container (add_tailer_annotation (new_handler names) annotation) container)
unfolding file_paths_for_container
annotated-All names annotation container =
    looked_up-Paths _ _ _ (annotated-IsValid names annotation).paths refl

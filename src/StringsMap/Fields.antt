-- ===== src/StringsMap/Fields.antt =====
-- `processField`, `fillMap` and `StringsMap` of stringmaps.go, and `NewFlatDirective` of types.go.
use logging_operator.Base.{
  Text, codes, ◌==◌, is_empty, join, split_on, not, ◌&&◌, Option, none, some, List, [], ◌∷◌, ◌++◌,
  ◌⊎◌, inl, inr, if◌then◌else◌,
}
use logging_operator.Base.Assoc.{Assoc, lookup, insert}
use logging_operator.Directive.{PluginMeta, Directive, generic, nil}
use logging_operator.StringsMap.{
  Json, Scalar, Value, scalar, pointer, strings, ints, string_map, secret, Field, FieldFault,
  conflicting_tags, converter_failed, converter_missing, secret_failed, required_field,
  marshal_failed, bad_default, SecretLoader, Converter, StructToStringMapper,
  new_struct_to_string_mapper, tag_get, has, value_for_prefix, parse_tag, parse_tag_with_name,
  show_scalar, value_is_zero,
}

-- What one field does to the map: an entry, nothing, or an error.
pub data Written : Type 0 where
  entry : Text → Text → Written
  nothing : Written
  fault : FieldFault → Written

-- The name of the entry: the tag's, or else the field's.
entry_name : {S : Type 0} → StructToStringMapper S → Field S → Text
unfolding tag_get parse_tag_with_name
entry_name s f =
    let tag_name = (parse_tag_with_name (tag_get f s.tag_name)).0 in
    if is_empty tag_name then f.name else tag_name

or_text : Option Text → Text → Text
or_text none val = val
or_text (some def) val = def

-- A scalar that prints as "" takes the default; one that is still "" must not be required.
write_scalar : Text → List Text → Scalar → Written
unfolding or_text value_for_prefix has show_scalar
write_scalar name opts v =
    let shown = show_scalar v in
    let val =
      if is_empty shown then or_text (value_for_prefix opts (codes "default:")) shown else shown in
    if is_empty val && has opts (codes "required")
    then fault (required_field name)
    else entry name val

write_marshalled : Text → Option Text → Written
write_marshalled name none = fault (marshal_failed name)
write_marshalled name (some b) = entry name b

-- `strings.Join(strings.Split(def, ","), "\",\"")`, in quotes unless it is empty
quote_all : Text → Text
quote_all def =
    let inner = join (split_on b',' def) (codes "\",\"") in
    if is_empty inner then inner else b'"' ∷ inner ++ b'"' ∷ []

bracketed : Text → Text
bracketed def = b'[' ∷ def ++ b']' ∷ []

write_strings_default : Text → Option Text → Written
unfolding quote_all bracketed
write_strings_default name none = nothing
write_strings_default name (some def) = entry name (bracketed (quote_all def))

write_ints_default : Json → Text → Option Text → Written
unfolding bracketed
write_ints_default json name none = nothing
write_ints_default json name (some def) =
    if json.reads_ints (bracketed def)
    then entry name (bracketed def)
    else fault (bad_default name (bracketed def))

write_map_default : Json → Text → Option Text → Written
write_map_default json name none = nothing
write_map_default json name (some def) =
    if json.reads_map def then entry name def else fault (bad_default name def)

-- The switch on `value.Kind()`, behind the secret and one dereference; `nothing` is its default.
write_value : {S : Type 0} → Json → Text → List Text → Value S → Written
unfolding write_scalar write_marshalled write_strings_default write_ints_default write_map_default
write_value json name opts (scalar v) = write_scalar name opts v
write_value json name opts (pointer (some v)) = write_scalar name opts v
write_value json name opts (strings (some (x ∷ xs))) =
    write_marshalled name (json.marshal_strings (x ∷ xs))
write_value json name opts (strings _) =
    write_strings_default name (value_for_prefix opts (codes "default:"))
write_value json name opts (ints (some (x ∷ xs))) =
    write_marshalled name (json.marshal_ints (x ∷ xs))
write_value json name opts (ints _) =
    write_ints_default json name (value_for_prefix opts (codes "default:"))
write_value json name opts (string_map (some (x ∷ xs))) =
    write_marshalled name (json.marshal_map (x ∷ xs))
write_value json name opts (string_map _) =
    write_map_default json name (value_for_prefix opts (codes "default:"))
write_value json name opts _ = nothing

write_loaded : Text → Text ⊎ Text → Written
write_loaded name (inl text) = entry name text
write_loaded name (inr message) = fault (secret_failed name message)

-- A secret is loaded if there is a loader and the secret is set.
write_secret_or_value :
    {S : Type 0} → StructToStringMapper S → Json → Text → List Text → Value S → Written
unfolding write_loaded write_value
write_secret_or_value s json name opts (secret (some x)) = elim s.secret_loader [
  | none ↦ nothing
  | some load ↦ write_loaded name (load x)
]
write_secret_or_value s json name opts v = write_value json name opts v

write_converted : Text → Text → Text ⊎ Text → Written
write_converted name converter (inl text) = entry name text
write_converted name converter (inr message) = fault (converter_failed name converter message)

write_hook : {S : Type 0} → Text → Text → Option (Converter S) → Value S → Written
unfolding write_converted
write_hook name converter none v = fault (converter_missing name converter)
write_hook name converter (some hook) v = write_converted name converter (hook v)

write_default : Text → Option Text → Written
write_default name none = nothing
write_default name (some def) = entry name def

-- A named converter, or else the value itself.
write_present : {S : Type 0} → StructToStringMapper S → Json → Text → List Text → Value S → Written
unfolding write_hook write_secret_or_value value_for_prefix lookup
write_present s json name opts v = elim (value_for_prefix opts (codes "converter:")) [
  | none ↦ write_secret_or_value s json name opts v
  | some converter ↦ write_hook name converter (lookup converter s.conversion_hooks) v
]

-- `processField`, by what it does to `out`
pub process_field : {S : Type 0} → StructToStringMapper S → Json → Field S → Written
unfolding entry_name write_default write_present value_for_prefix value_is_zero tag_get has
    parse_tag parse_tag_with_name
process_field s json f =
    let name = entry_name s f in
    let tag_opts = (parse_tag_with_name (tag_get f s.tag_name)).1 in
    let opts = parse_tag (tag_get f s.plugin_tag_name) in
    let required = has opts (codes "required") in
    if has opts (codes "hidden")
    then nothing
    else if has tag_opts (codes "omitempty")
    then (if required
        then fault (conflicting_tags name)
        else if value_is_zero f.value
        then write_default name (value_for_prefix opts (codes "default:"))
        else write_present s json name opts f.value)
    else write_present s json name opts f.value

-- `structFields`: the exported fields whose tag is not "-"
pub struct_fields : {S : Type 0} → StructToStringMapper S → List (Field S) → List (Field S)
unfolding tag_get
struct_fields s [] = []
struct_fields s (f ∷ fs) =
    let rest = struct_fields s fs in
    if not f.exported then rest else if tag_get f s.tag_name == codes "-" then rest else f ∷ rest

unfoldable pub write : Written → Assoc Text × List FieldFault → Assoc Text × List FieldFault
unfolding insert
write (entry name val) (out, errs) = (insert name val out, errs)
write nothing (out, errs) = (out, errs)
write (fault e) (out, errs) = (out, errs ++ e ∷ [])

-- The loop of `fillMap`: an error does not stop it.
unfoldable pub fill_map :
    {S : Type 0}
    → StructToStringMapper S
    → Json
    → List (Field S)
    → Assoc Text × List FieldFault
    → Assoc Text × List FieldFault
unfolding write process_field
fill_map s json [] acc = acc
fill_map s json (f ∷ fs) acc = fill_map s json fs (write (process_field s json f) acc)

unfoldable pub strings_map :
    {S : Type 0} → StructToStringMapper S → Json → List (Field S) → Assoc Text × List FieldFault
unfolding fill_map struct_fields
strings_map s json fields = fill_map s json (struct_fields s fields) ([], [])

unfoldable pub flat_directive_of :
    PluginMeta → Assoc Text × List FieldFault → Directive ⊎ List FieldFault
flat_directive_of meta (params, []) = inl (generic meta params nil)
flat_directive_of meta (params, (e ∷ errs)) = inr (e ∷ errs)

-- `NewFlatDirective`
unfoldable pub new_flat_directive :
    {S : Type 0}
    → Json
    → PluginMeta
    → List (Field S)
    → Option (SecretLoader S)
    → Directive ⊎ List FieldFault
unfolding flat_directive_of strings_map new_struct_to_string_mapper
new_flat_directive json meta fields loader =
    flat_directive_of meta (strings_map (new_struct_to_string_mapper loader) json fields)

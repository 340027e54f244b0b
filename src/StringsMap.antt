-- ===== src/StringsMap.antt =====
-- pkg/sdk/logging/model/types/stringmaps.go: a struct as the parameters of a directive. A struct is
-- the list of its fields, as reflection shows them; `encoding/json` is a parameter.
pub mod Fields
pub mod Rules
pub mod Tagged
use logging_operator.Base.{
  ℕ, zero, suc, Text, codes, ◌==◌, is_empty, has_prefix, join, split_on, Bool, true, false, not,
  ◌&&◌, ◌||◌, Option, none, some, List, [], ◌∷◌, ◌++◌, ◌⊎◌, inl, inr, if◌then◌else◌,
}
use logging_operator.Base.Int.{ℤ, is_zero, show}
use logging_operator.Base.Assoc.{Assoc, lookup, insert}
use logging_operator.Directive.{PluginMeta, Directive, generic, nil}

-- Package `encoding/json`: `none` is an error, and the tests say whether a text can be read.
pub record Json : Type 0 where
  pub marshal_strings : List Text → Option Text
  pub marshal_ints : List ℤ → Option Text
  pub marshal_map : Assoc Text → Option Text
  pub reads_ints : Text → Bool
  pub reads_map : Text → Bool

pub data Scalar : Type 0 where
  str : Text → Scalar
  int : ℤ → Scalar
  bool : Bool → Scalar

-- A field's value by kind, over the type of secrets; slices, maps and pointers may be nil. The other
-- kinds, structs above all, are never printed, and only say whether they are zero (or nil).
pub data Value (S : Type 0) : Type 0 where
  scalar : Scalar → Value S
  pointer : Option Scalar → Value S
  strings : Option (List Text) → Value S
  ints : Option (List ℤ) → Value S
  string_map : Option (Assoc Text) → Value S
  secret : Option S → Value S
  other_value : Bool → Value S
  other_pointer : Bool → Value S

pub record Field (S : Type 0) : Type 0 where
  pub name : Text
  pub exported : Bool
  pub tags : Assoc Text
  pub value : Value S

-- Why a field cannot be converted; the first argument is its name.
pub data FieldFault : Type 0 where
  conflicting_tags : Text → FieldFault
  converter_failed : Text → Text → Text → FieldFault
  converter_missing : Text → Text → FieldFault
  secret_failed : Text → Text → FieldFault
  required_field : Text → FieldFault
  marshal_failed : Text → FieldFault
  bad_default : Text → Text → FieldFault

-- `SecretLoader.Load`: a text, or the error's message
abbrev pub SecretLoader : Type 0 → Type 0
SecretLoader S = S → Text ⊎ Text

abbrev pub Converter : Type 0 → Type 0
Converter S = Value S → Text ⊎ Text

pub record StructToStringMapper (S : Type 0) : Type 0 where
  pub tag_name : Text
  pub plugin_tag_name : Text
  pub conversion_hooks : Assoc (Converter S)
  pub secret_loader : Option (SecretLoader S)

unfoldable pub new_struct_to_string_mapper :
    {S : Type 0} → Option (SecretLoader S) → StructToStringMapper S
new_struct_to_string_mapper loader = record {
  tag_name = codes "json";
  plugin_tag_name = codes "plugin";
  conversion_hooks = [];
  secret_loader = loader;
}

with_converter : {S : Type 0} → StructToStringMapper S → Text → Converter S → StructToStringMapper S
with_converter s name c = record s { conversion_hooks = insert name c s.conversion_hooks }

-- `field.Tag.Get(name)`
tag_get : {S : Type 0} → Field S → Text → Text
unfolding lookup
tag_get f name = elim (lookup name f.tags) [ none ↦ [] | some t ↦ t ]

-- `tagOptions.Has`
pub has : List Text → Text → Bool
has [] opt = false
has (t ∷ ts) opt = if t == opt then true else has ts opt

-- `strings.Replace(s, prefix, "", 1)` where `s` begins with the prefix
strip : Text → Text → Text
strip s [] = s
strip [] (p ∷ ps) = []
strip (c ∷ s) (p ∷ ps) = strip s ps

-- `tagOptions.ValueForPrefix`
value_for_prefix : List Text → Text → Option Text
unfolding has_prefix strip
value_for_prefix [] opt = none
value_for_prefix (t ∷ ts) opt =
    if has_prefix t opt then some (strip t opt) else value_for_prefix ts opt

parse_tag : Text → List Text
unfolding split_on
parse_tag tag = split_on b',' tag

first_and_rest : List Text → Text × List Text
first_and_rest [] = ([], [])
first_and_rest (n ∷ opts) = (n, opts)

parse_tag_with_name : Text → Text × List Text
unfolding split_on first_and_rest
parse_tag_with_name tag = first_and_rest (split_on b',' tag)

-- `fmt.Sprintf("%v", …)`
show_scalar : Scalar → Text
unfolding show
show_scalar (str s) = s
show_scalar (int n) = show n
show_scalar (bool true) = codes "true"
show_scalar (bool false) = codes "false"

scalar_is_zero : Scalar → Bool
scalar_is_zero (str s) = is_empty s
scalar_is_zero (int n) = is_zero n
scalar_is_zero (bool b) = not b

-- `value.IsZero()`; of the other kinds it is given
value_is_zero : {S : Type 0} → Value S → Bool
unfolding scalar_is_zero
value_is_zero (scalar s) = scalar_is_zero s
value_is_zero (pointer none) = true
value_is_zero (strings none) = true
value_is_zero (ints none) = true
value_is_zero (string_map none) = true
value_is_zero (secret none) = true
value_is_zero (other_value zero_value) = zero_value
value_is_zero (other_pointer is_nil) = is_nil
value_is_zero _ = false

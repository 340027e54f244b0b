-- ===== src/StringsMap/Tagged.antt =====
-- The exported fields of a struct with their tags, as pkg/sdk/logging/model declares them, by the type
-- of the field.
use Prim.Native.String.{String}
use logging_operator.Base.{Text, codes, Bool, true, false, Option, none, some, List, [], ◌∷◌}
use logging_operator.Base.Int.{ℤ}
use logging_operator.StringsMap.{
  str, int, bool, Value, scalar, pointer, other_value, other_pointer, Field,
}

-- A field with a `json` tag
unfoldable pub tagged : {S : Type 0} → String → String → Value S → Field S
tagged name tag v = record {
  name = codes name;
  exported = true;
  tags = (codes "json", codes tag) ∷ [];
  value = v;
}

-- The same with a `plugin` tag
unfoldable pub plugin_tagged : {S : Type 0} → String → String → String → Value S → Field S
plugin_tagged name tag plugin v = record {
  name = codes name;
  exported = true;
  tags = (codes "json", codes tag) ∷ (codes "plugin", codes plugin) ∷ [];
  value = v;
}

unfoldable pub text_value : {S : Type 0} → Text → Value S
text_value t = scalar (str t)

unfoldable pub int_value : {S : Type 0} → ℤ → Value S
int_value n = scalar (int n)

unfoldable pub bool_value : {S : Type 0} → Bool → Value S
bool_value b = scalar (bool b)

unfoldable pub text_pointer : {S : Type 0} → Option Text → Value S
text_pointer none = pointer none
text_pointer (some t) = pointer (some (str t))

unfoldable pub bool_pointer : {S : Type 0} → Option Bool → Value S
bool_pointer none = pointer none
bool_pointer (some b) = pointer (some (bool b))

unfoldable pub struct_pointer : {S A : Type 0} → Option A → Value S
struct_pointer none = other_pointer true
struct_pointer (some a) = other_pointer false

unfoldable pub struct_slice : {S A : Type 0} → Option (List A) → Value S
struct_slice none = other_value true
struct_slice (some xs) = other_value false

-- A struct by value, where none is the zero one
unfoldable pub struct_value : {S A : Type 0} → Option A → Value S
struct_value none = other_value true
struct_value (some a) = other_value false

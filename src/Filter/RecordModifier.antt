-- ===== src/Filter/RecordModifier.antt =====
-- record_modifier.go of pkg/sdk/logging/model/filter.
use logging_operator.Base.{Text, codes, Option, List, [], ◌∷◌, ◌++◌, ◌⊎◌}
use logging_operator.Directive.{meta_of, Directive}
use logging_operator.StringsMap.{Json, Field, FieldFault, SecretLoader}
use logging_operator.StringsMap.Tagged.{tagged, text_value, struct_slice}
use logging_operator.StringsMap.Fields.{new_flat_directive}
use logging_operator.Output.{one_each, plugin_directive}
use logging_operator.Filter.{filter_meta}
use logging_operator.Filter.Record.{Record, record_to_directive}

pub record Replace : Type 0 where
  pub key : Text
  pub expression : Text
  pub replace : Text

unfoldable pub replace_fields : {S : Type 0} → Replace → List (Field S)
unfolding tagged text_value
replace_fields x =
    tagged "Key" "key" (text_value x.key)
    ∷ tagged "Expression" "expression" (text_value x.expression)
    ∷ tagged "Replace" "replace" (text_value x.replace)
    ∷ []

unfoldable pub replace_to_directive :
    {S : Type 0} → Json → Option (SecretLoader S) → Replace → Directive ⊎ List FieldFault
unfolding replace_fields new_flat_directive
replace_to_directive json loader x =
    new_flat_directive json (meta_of (codes "replace")) (replace_fields x) loader

pub record RecordModifier : Type 0 where
  pub prepare_values : Text
  pub char_encoding : Text
  pub remove_keys : Text
  pub whitelist_keys : Text
  pub replaces : Option (List Replace)
  pub records : Option (List Record)

unfoldable pub record_modifier_fields : {S : Type 0} → RecordModifier → List (Field S)
unfolding struct_slice tagged text_value
record_modifier_fields x =
    tagged "PrepareValues" "prepare_value,omitempty" (text_value x.prepare_values)
    ∷ tagged "CharEncoding" "char_encoding,omitempty" (text_value x.char_encoding)
    ∷ tagged "RemoveKeys" "remove_keys,omitempty" (text_value x.remove_keys)
    ∷ tagged "WhitelistKeys" "whitelist_keys,omitempty" (text_value x.whitelist_keys)
    ∷ tagged "Replaces" "replaces,omitempty" (struct_slice x.replaces)
    ∷ tagged "Records" "records,omitempty" (struct_slice x.records)
    ∷ []

-- `RecordModifier.ToDirective`
unfoldable pub record_modifier_to_directive :
    {S : Type 0}
    → Json
    → Option (SecretLoader S)
    → Text
    → RecordModifier
    → Directive ⊎ List FieldFault
unfolding plugin_directive one_each record_to_directive filter_meta record_modifier_fields
record_modifier_to_directive json loader id x =
    plugin_directive json loader (filter_meta (codes "record_modifier") id)
      (record_modifier_fields x)
      (one_each (replace_to_directive json loader) x.replaces
        ++ one_each record_to_directive x.records)

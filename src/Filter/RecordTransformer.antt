-- ===== src/Filter/RecordTransformer.antt =====
-- record_transformer.go of pkg/sdk/logging/model/filter.
use logging_operator.Base.{Text, codes, Bool, Option, List, [], ◌∷◌, ◌⊎◌}
use logging_operator.Directive.{Directive}
use logging_operator.StringsMap.{Json, Field, FieldFault, SecretLoader}
use logging_operator.StringsMap.Tagged.{tagged, text_value, bool_value, struct_slice}
use logging_operator.Output.{one_each, plugin_directive}
use logging_operator.Filter.{filter_meta}
use logging_operator.Filter.Record.{Record, record_to_directive}

pub record RecordTransformer : Type 0 where
  pub remove_keys : Text
  pub keep_keys : Text
  pub renew_record : Bool
  pub renew_time_key : Text
  pub enable_ruby : Bool
  pub auto_typecast : Bool
  pub records : Option (List Record)

unfoldable pub record_transformer_fields : {S : Type 0} → RecordTransformer → List (Field S)
unfolding bool_value struct_slice tagged text_value
record_transformer_fields x =
    tagged "RemoveKeys" "remove_keys,omitempty" (text_value x.remove_keys)
    ∷ tagged "KeepKeys" "keep_keys,omitempty" (text_value x.keep_keys)
    ∷ tagged "RenewRecord" "renew_record,omitempty" (bool_value x.renew_record)
    ∷ tagged "RenewTimeKey" "renew_time_key,omitempty" (text_value x.renew_time_key)
    ∷ tagged "EnableRuby" "enable_ruby,omitempty" (bool_value x.enable_ruby)
    ∷ tagged "AutoTypecast" "auto_typecast,omitempty" (bool_value x.auto_typecast)
    ∷ tagged "Records" "records,omitempty" (struct_slice x.records)
    ∷ []

-- `RecordTransformer.ToDirective`
unfoldable pub record_transformer_to_directive :
    {S : Type 0}
    → Json
    → Option (SecretLoader S)
    → Text
    → RecordTransformer
    → Directive ⊎ List FieldFault
unfolding plugin_directive one_each record_to_directive filter_meta record_transformer_fields
record_transformer_to_directive json loader id x =
    plugin_directive json loader (filter_meta (codes "record_transformer") id)
      (record_transformer_fields x) (one_each record_to_directive x.records)

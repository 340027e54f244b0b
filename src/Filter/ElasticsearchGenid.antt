-- ===== src/Filter/ElasticsearchGenid.antt =====
-- elasticsearch_genid.go of pkg/sdk/logging/model/filter.
use logging_operator.Base.{Text, codes, Bool, Option, List, [], ◌∷◌, ◌⊎◌}
use logging_operator.Directive.{Directive}
use logging_operator.StringsMap.{Json, Field, FieldFault, SecretLoader}
use logging_operator.StringsMap.Tagged.{tagged, text_value, bool_value}
use logging_operator.StringsMap.Fields.{new_flat_directive}
use logging_operator.Filter.{filter_meta}

pub record ElasticsearchGenId : Type 0 where
  pub hash_id_key : Text
  pub include_tag_in_seed : Bool
  pub include_time_in_seed : Bool
  pub use_record_as_seed : Bool
  pub record_keys : Text
  pub use_entire_record : Bool
  pub separator : Text
  pub hash_type : Text

unfoldable pub elasticsearch_genid_fields : {S : Type 0} → ElasticsearchGenId → List (Field S)
unfolding bool_value tagged text_value
elasticsearch_genid_fields x =
    tagged "HashIdKey" "hash_id_key,omitempty" (text_value x.hash_id_key)
    ∷ tagged "IncludeTagInSeed" "include_tag_in_seed,omitempty" (bool_value x.include_tag_in_seed)
    ∷ tagged "IncludeTimeInSeed" "include_time_in_seed,omitempty"
        (bool_value x.include_time_in_seed)
    ∷ tagged "UseRecordAsSeed" "use_record_as_seed,omitempty" (bool_value x.use_record_as_seed)
    ∷ tagged "RecordKeys" "record_keys,omitempty" (text_value x.record_keys)
    ∷ tagged "UseEntireRecord" "use_entire_record,omitempty" (bool_value x.use_entire_record)
    ∷ tagged "Separator" "separator,omitempty" (text_value x.separator)
    ∷ tagged "HashType" "hash_type,omitempty" (text_value x.hash_type)
    ∷ []

-- `ElasticsearchGenId.ToDirective`
unfoldable pub elasticsearch_genid_to_directive :
    {S : Type 0}
    → Json
    → Option (SecretLoader S)
    → Text
    → ElasticsearchGenId
    → Directive ⊎ List FieldFault
unfolding new_flat_directive filter_meta
elasticsearch_genid_to_directive json loader id x =
    new_flat_directive json (filter_meta (codes "elasticsearch_genid") id)
      (elasticsearch_genid_fields (x)) loader

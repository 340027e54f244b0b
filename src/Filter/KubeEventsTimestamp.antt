-- ===== src/Filter/KubeEventsTimestamp.antt =====
-- kube_events_timestamp.go of pkg/sdk/logging/model/filter.
use logging_operator.Base.{Text, codes, Option, List, [], ◌∷◌, ◌⊎◌}
use logging_operator.Directive.{Directive}
use logging_operator.StringsMap.{Json, strings, Field, FieldFault, SecretLoader}
use logging_operator.StringsMap.Tagged.{tagged, text_value}
use logging_operator.StringsMap.Fields.{new_flat_directive}
use logging_operator.Filter.{filter_meta}

pub record KubeEventsTimestampConfig : Type 0 where
  pub timestamp_fields : Option (List Text)
  pub mapped_time_key : Text

unfoldable pub kube_events_timestamp_fields :
    {S : Type 0} → KubeEventsTimestampConfig → List (Field S)
unfolding tagged text_value
kube_events_timestamp_fields x =
    tagged "TimestampFields" "timestamp_fields,omitempty" (strings x.timestamp_fields)
    ∷ tagged "MappedTimeKey" "mapped_time_key,omitempty" (text_value x.mapped_time_key)
    ∷ []

-- `KubeEventsTimestampConfig.ToDirective`
unfoldable pub kube_events_timestamp_to_directive :
    {S : Type 0}
    → Json
    → Option (SecretLoader S)
    → Text
    → KubeEventsTimestampConfig
    → Directive ⊎ List FieldFault
unfolding new_flat_directive filter_meta
kube_events_timestamp_to_directive json loader id x =
    new_flat_directive json (filter_meta (codes "kube_events_timestamp") id)
      (kube_events_timestamp_fields (x)) loader

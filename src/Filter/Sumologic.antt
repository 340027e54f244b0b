-- ===== src/Filter/Sumologic.antt =====
-- sumologic.go of pkg/sdk/logging/model/filter.
use logging_operator.Base.{Text, codes, Bool, Option, List, [], ◌∷◌, ◌⊎◌}
use logging_operator.Directive.{Directive}
use logging_operator.StringsMap.{Json, Field, FieldFault, SecretLoader}
use logging_operator.StringsMap.Tagged.{tagged, text_value, bool_pointer}
use logging_operator.StringsMap.Fields.{new_flat_directive}
use logging_operator.Filter.{filter_meta}

pub record SumoLogic : Type 0 where
  pub source_category : Text
  pub source_category_replace_dash : Text
  pub source_category_prefix : Text
  pub source_name : Text
  pub log_format : Text
  pub source_host : Text
  pub exclude_container_regex : Text
  pub exclude_facility_regex : Text
  pub exclude_host_regex : Text
  pub exclude_namespace_regex : Text
  pub exclude_pod_regex : Text
  pub exclude_priority_regex : Text
  pub exclude_unit_regex : Text
  pub tracing_format : Option Bool
  pub tracing_namespace : Text
  pub tracing_pod : Text
  pub tracing_pod_id : Text
  pub tracing_container_name : Text
  pub tracing_host : Text
  pub tracing_label_prefix : Text
  pub tracing_annotation_prefix : Text
  pub source_host_key_name : Text
  pub source_category_key_name : Text
  pub source_name_key_name : Text
  pub collector_key_name : Text
  pub collector_value : Text

unfoldable pub sumo_logic_fields : {S : Type 0} → SumoLogic → List (Field S)
unfolding bool_pointer tagged text_value
sumo_logic_fields x =
    tagged "SourceCategory" "source_category,omitempty" (text_value x.source_category)
    ∷ tagged "SourceCategoryReplaceDash" "source_category_replace_dash,omitempty"
        (text_value x.source_category_replace_dash)
    ∷ tagged "SourceCategoryPrefix" "source_category_prefix,omitempty"
        (text_value x.source_category_prefix)
    ∷ tagged "SourceName" "source_name,omitempty" (text_value x.source_name)
    ∷ tagged "LogFormat" "log_format,omitempty" (text_value x.log_format)
    ∷ tagged "SourceHost" "source_host,omitempty" (text_value x.source_host)
    ∷ tagged "ExcludeContainerRegex" "exclude_container_regex,omitempty"
        (text_value x.exclude_container_regex)
    ∷ tagged "ExcludeFacilityRegex" "exclude_facility_regex,omitempty"
        (text_value x.exclude_facility_regex)
    ∷ tagged "ExcludeHostRegex" "exclude_host_regex,omitempty" (text_value x.exclude_host_regex)
    ∷ tagged "ExcludeNamespaceRegex" "exclude_namespace_regex,omitempty"
        (text_value x.exclude_namespace_regex)
    ∷ tagged "ExcludePodRegex" "exclude_pod_regex,omitempty" (text_value x.exclude_pod_regex)
    ∷ tagged "ExcludePriorityRegex" "exclude_priority_regex,omitempty"
        (text_value x.exclude_priority_regex)
    ∷ tagged "ExcludeUnitRegex" "exclude_unit_regex,omitempty" (text_value x.exclude_unit_regex)
    ∷ tagged "TracingFormat" "tracing_format,omitempty" (bool_pointer x.tracing_format)
    ∷ tagged "TracingNamespace" "tracing_namespace,omitempty" (text_value x.tracing_namespace)
    ∷ tagged "TracingPod" "tracing_pod,omitempty" (text_value x.tracing_pod)
    ∷ tagged "TracingPodId" "tracing_pod_id,omitempty" (text_value x.tracing_pod_id)
    ∷ tagged "TracingContainerName" "tracing_container_name,omitempty"
        (text_value x.tracing_container_name)
    ∷ tagged "TracingHost" "tracing_host,omitempty" (text_value x.tracing_host)
    ∷ tagged "TracingLabelPrefix" "tracing_label_prefix,omitempty"
        (text_value x.tracing_label_prefix)
    ∷ tagged "TracingAnnotationPrefix" "tracing_annotation_prefix,omitempty"
        (text_value x.tracing_annotation_prefix)
    ∷ tagged "SourceHostKeyName" "source_host_key_name,omitempty"
        (text_value x.source_host_key_name)
    ∷ tagged "SourceCategoryKeyName" "source_category_key_name,omitempty"
        (text_value x.source_category_key_name)
    ∷ tagged "SourceNameKeyName" "source_name_key_name,omitempty"
        (text_value x.source_name_key_name)
    ∷ tagged "CollectorKeyName" "collector_key_name,omitempty" (text_value x.collector_key_name)
    ∷ tagged "CollectorValue" "collector_value,omitempty" (text_value x.collector_value)
    ∷ []

-- `SumoLogic.ToDirective`
unfoldable pub sumo_logic_to_directive :
    {S : Type 0} → Json → Option (SecretLoader S) → Text → SumoLogic → Directive ⊎ List FieldFault
unfolding new_flat_directive filter_meta
sumo_logic_to_directive json loader id x =
    new_flat_directive json (filter_meta (codes "kubernetes_sumologic") id) (sumo_logic_fields (x))
      loader

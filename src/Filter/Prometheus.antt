-- ===== src/Filter/Prometheus.antt =====
-- prometheus.go of pkg/sdk/logging/model/filter.
use logging_operator.Base.{Text, codes, Option, none, List, [], ◌∷◌, ◌++◌, ◌⊎◌, inl, inr}
use logging_operator.Base.Assoc.{Assoc}
use logging_operator.Directive.{meta_of, PluginMeta, Directive, generic, nil}
use logging_operator.StringsMap.{Json, Field, FieldFault, SecretLoader}
use logging_operator.StringsMap.Tagged.{tagged, text_value, struct_slice, struct_value}
use logging_operator.Output.{sections, optional, one_each, plugin_directive}
use logging_operator.Filter.{filter_meta}
use logging_operator.Directive.{Directives}
use logging_operator.StringsMap.{new_struct_to_string_mapper}
use logging_operator.StringsMap.Fields.{strings_map}

abbrev pub Label : Type 0
Label = Assoc Text

pub record MetricSection : Type 0 where
  pub name : Text
  pub type : Text
  pub desc : Text
  pub key : Text
  pub buckets : Text
  pub labels : Option Label

pub record PrometheusConfig : Type 0 where
  pub metrics : Option (List MetricSection)
  pub labels : Option Label

unfoldable pub metric_fields : {S : Type 0} → MetricSection → List (Field S)
unfolding struct_value tagged text_value
metric_fields x =
    tagged "Name" "name" (text_value x.name)
    ∷ tagged "Type" "type" (text_value x.type)
    ∷ tagged "Desc" "desc" (text_value x.desc)
    ∷ tagged "Key" "key,omitempty" (text_value x.key)
    ∷ tagged "Buckets" "buckets,omitempty" (text_value x.buckets)
    ∷ tagged "Labels" "labels,omitempty" (struct_value x.labels)
    ∷ []

unfoldable pub prometheus_fields : {S : Type 0} → PrometheusConfig → List (Field S)
unfolding struct_slice struct_value tagged
prometheus_fields x =
    tagged "Metrics" "metrics,omitempty" (struct_slice x.metrics)
    ∷ tagged "Labels" "labels,omitempty" (struct_value x.labels)
    ∷ []

-- `Label.ToDirective`, which has no errors
unfoldable pub label_to_directive : Label → Directive ⊎ List FieldFault
label_to_directive r = inl (generic (meta_of (codes "labels")) r nil)

-- `MetricSection.ToDirective`: the labels are a section, and no parameter.
unfoldable pub metric_to_directive :
    {S : Type 0} → Json → Option (SecretLoader S) → MetricSection → Directive ⊎ List FieldFault
unfolding plugin_directive optional label_to_directive metric_fields
metric_to_directive json loader x =
    plugin_directive json loader (meta_of (codes "metric"))
      (metric_fields (record x { labels = none })) (optional label_to_directive x.labels)

-- The errors of the sections come first.
unfoldable pub with_params :
    PluginMeta
    → Directives ⊎ List FieldFault
    → Assoc Text × List FieldFault
    → Directive ⊎ List FieldFault
with_params meta (inr errs) result = inr errs
with_params meta (inl ds) (params, (e ∷ errs)) = inr (e ∷ errs)
with_params meta (inl ds) (params, []) = inl (generic meta params ds)

-- `PrometheusConfig.ToDirective`
unfoldable pub prometheus_to_directive :
    {S : Type 0}
    → Json
    → Option (SecretLoader S)
    → Text
    → PrometheusConfig
    → Directive ⊎ List FieldFault
unfolding sections one_each optional metric_to_directive label_to_directive with_params strings_map
    new_struct_to_string_mapper filter_meta prometheus_fields
prometheus_to_directive json loader id x =
    with_params (filter_meta (codes "prometheus") id)
      (sections (
        one_each (metric_to_directive json loader) x.metrics
        ++ optional label_to_directive x.labels))
      (strings_map (new_struct_to_string_mapper loader) json (prometheus_fields x))

-- ===== src/Resources.antt =====
-- pkg/resources/model/resources.go, the resources of pkg/sdk/logging/api/v1beta1 that it collects,
-- and pkg/sdk/logging/plugins. `S` is the type of secrets. The status is in module Status.
use logging_operator.Base.{
  Text, ◌==◌, ◌&&◌, Option, none, some, List, [], ◌∷◌, ◌⊎◌, inl, inr, if◌then◌else◌,
}
use logging_operator.Base.Assoc.{Assoc}
use logging_operator.Directive.{Directive}
use logging_operator.StringsMap.{SecretLoader, FieldFault}

-- An error of a plugin: its fields' errors, or the message of another one.
pub data PluginFault : Type 0 where
  fields : List FieldFault → PluginFault
  message : Text → PluginFault

-- The value behind a plugin's pointer, where it is a `DirectiveConverter`: its `ToDirective`, and
-- its secrets that are set, in the order of its fields.
pub record Plugin (S : Type 0) : Type 0 where
  pub to_directive : Option (SecretLoader S) → Text → Directive ⊎ PluginFault
  pub secrets : List S

-- A field of a spec by reflection, by its name and its `json` tag: a field that is no pointer, a nil
-- pointer, or a pointer to a plugin.
pub data SpecField (S : Type 0) : Type 0 where
  plain : Text → Text → SpecField S
  unset : Text → Text → SpecField S
  set : Text → Text → Plugin S → SpecField S

-- `Filter` and `OutputSpec` are their fields, in the order of the declaration.
abbrev pub Filter : Type 0 → Type 0
Filter S = List (SpecField S)

abbrev pub OutputSpec : Type 0 → Type 0
OutputSpec S = List (SpecField S)

-- `Select` and `Exclude`
pub record Select : Type 0 where
  pub labels : Assoc Text
  pub hosts : List Text
  pub container_names : List Text

pub record Match : Type 0 where
  pub select : Option Select
  pub exclude : Option Select

pub record FlowSpec (S : Type 0) : Type 0 where
  pub selectors : Option (Assoc Text)
  pub match : Option (List Match)
  pub filters : List (Filter S)
  pub logging_ref : Text
  pub output_refs : List Text
  pub global_output_refs : List Text
  pub local_output_refs : List Text

pub record FlowResource (S : Type 0) : Type 0 where
  pub namespace : Text
  pub name : Text
  pub spec : FlowSpec S

-- `ClusterSelect` and `ClusterExclude`
pub record ClusterSelect : Type 0 where
  pub namespaces : List Text
  pub labels : Assoc Text
  pub hosts : List Text
  pub container_names : List Text

pub record ClusterMatch : Type 0 where
  pub select : Option ClusterSelect
  pub exclude : Option ClusterSelect

pub record ClusterFlowSpec (S : Type 0) : Type 0 where
  pub selectors : Option (Assoc Text)
  pub match : Option (List ClusterMatch)
  pub filters : List (Filter S)
  pub logging_ref : Text
  pub output_refs : List Text
  pub global_output_refs : List Text

pub record ClusterFlow (S : Type 0) : Type 0 where
  pub namespace : Text
  pub name : Text
  pub spec : ClusterFlowSpec S

pub record Output (S : Type 0) : Type 0 where
  pub namespace : Text
  pub name : Text
  pub logging_ref : Text
  pub spec : OutputSpec S

-- Its spec is an `OutputSpec`, and the namespaces for which it is enabled.
pub record ClusterOutput (S : Type 0) : Type 0 where
  pub namespace : Text
  pub name : Text
  pub logging_ref : Text
  pub spec : OutputSpec S
  pub enabled_namespaces : List Text

unfoldable pub find_by_name :
    {S : Type 0} → List (ClusterOutput S) → Text → Option (ClusterOutput S)
find_by_name [] name = none
find_by_name (c ∷ cs) name = if c.name == name then some c else find_by_name cs name

unfoldable pub find_by_namespaced_name :
    {S : Type 0} → List (Output S) → Text → Text → Option (Output S)
find_by_namespaced_name [] namespace name = none
find_by_namespaced_name (o ∷ os) namespace name =
    if o.namespace == namespace && o.name == name
    then some o
    else find_by_namespaced_name os namespace name

-- Why no directive is made of a spec.
pub data CreateFault : Type 0 where
  no_plugin : CreateFault
  many_plugins : CreateFault
  plugin_failed : PluginFault → CreateFault

-- The pointers that are set, of which each is a converter
unfoldable pub converters : {S : Type 0} → List (SpecField S) → List (Plugin S)
converters [] = []
converters (set n t p ∷ fs) = p ∷ converters fs
converters (f ∷ fs) = converters fs

pub to_create : Directive ⊎ PluginFault → Directive ⊎ CreateFault
to_create (inl d) = inl d
to_create (inr e) = inr (plugin_failed e)

unfoldable pub create_from :
    {S : Type 0} → List (Plugin S) → Text → Option (SecretLoader S) → Directive ⊎ CreateFault
unfolding to_create
create_from [] id loader = inr no_plugin
create_from (p ∷ []) id loader = to_create (p.to_directive loader id)
create_from (p ∷ q ∷ ps) id loader = inr many_plugins

unfoldable pub create_output :
    {S : Type 0} → OutputSpec S → Text → Option (SecretLoader S) → Directive ⊎ CreateFault
unfolding create_from converters
create_output spec output_name loader = create_from (converters spec) output_name loader

unfoldable pub create_filter :
    {S : Type 0} → Filter S → Text → Option (SecretLoader S) → Directive ⊎ CreateFault
unfolding create_from converters
create_filter filter id loader = create_from (converters filter) id loader

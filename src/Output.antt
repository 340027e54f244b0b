-- ===== src/Output.antt =====
-- pkg/sdk/logging/model/output: the outputs, each in a module of its own. What their functions have
-- in common: a `match` directive with the parameters of the struct and with sections. A struct's
-- `Buffer` or `Format` that `ToDirective` sets to the empty one is read as the empty one.
pub mod Buffer
pub mod Format
pub mod File
pub mod Elasticsearch
pub mod Opensearch
pub mod Forward
pub mod Gelf
pub mod Syslog
pub mod Redis
pub mod Kafka
pub mod Datadog
pub mod Logdna
pub mod Oss
pub mod Gcs
pub mod Azurestore
pub mod Sqs
pub mod Http
pub mod Cloudwatch
pub mod Sumologic
pub mod KinesisStream
pub mod KinesisFirehose
pub mod Kinds
pub mod Defaults
pub mod Disabled
use logging_operator.Base.{Text, codes, Option, none, some, List, [], ◌∷◌, ◌⊎◌, inl, inr}
use logging_operator.Base.Assoc.{Assoc}
use logging_operator.Directive.{PluginMeta, meta_of, Directive, generic, Directives, nil, cons}
use logging_operator.StringsMap.{Json, Field, FieldFault, SecretLoader, new_struct_to_string_mapper}
use logging_operator.StringsMap.Fields.{strings_map, new_flat_directive}

unfoldable pub match_meta : Text → Text → PluginMeta
match_meta type id = record (meta_of (codes "match")) { type = type; tag = codes "**"; id = id }

abbrev pub OutputMade : Type 0
OutputMade = Directive ⊎ List FieldFault

-- A section that is there if it is configured
unfoldable pub optional : {A : Type 0} → (A → OutputMade) → Option A → List OutputMade
optional make none = []
optional make (some a) = make a ∷ []

unfoldable pub or_empty : {A : Type 0} → A → Option A → A
or_empty empty none = empty
or_empty empty (some a) = a

make_all : {A : Type 0} → (A → OutputMade) → List A → List OutputMade
make_all make [] = []
make_all make (a ∷ xs) = make a ∷ make_all make xs

-- A section for each element of a slice
unfoldable pub one_each : {A : Type 0} → (A → OutputMade) → Option (List A) → List OutputMade
unfolding make_all
one_each make none = []
one_each make (some xs) = make_all make xs

unfoldable pub then_section :
    Directive → Directives ⊎ List FieldFault → Directives ⊎ List FieldFault
then_section d (inl ds) = inl (cons d ds)
then_section d (inr errs) = inr errs

-- The sections in order, or the errors of the first that has some
unfoldable pub sections : List OutputMade → Directives ⊎ List FieldFault
unfolding then_section
sections [] = inl nil
sections (inl d ∷ made) = then_section d (sections made)
sections (inr errs ∷ made) = inr errs

unfoldable pub with_sections :
    PluginMeta → Assoc Text × List FieldFault → Directives ⊎ List FieldFault → OutputMade
with_sections meta (params, (e ∷ errs)) made = inr (e ∷ errs)
with_sections meta (params, []) (inr errs) = inr errs
with_sections meta (params, []) (inl ds) = inl (generic meta params ds)

unfoldable pub plugin_directive :
    {S : Type 0}
    → Json
    → Option (SecretLoader S)
    → PluginMeta
    → List (Field S)
    → List OutputMade
    → OutputMade
unfolding sections with_sections strings_map new_struct_to_string_mapper
plugin_directive json loader meta fields made =
    with_sections meta (strings_map (new_struct_to_string_mapper loader) json fields)
      (sections made)

-- `NullOutputConfig.ToDirective`; the struct has no fields
unfoldable pub null_to_directive : {S : Type 0} → Json → Option (SecretLoader S) → Text → OutputMade
unfolding match_meta new_flat_directive
null_to_directive json loader id = new_flat_directive json (match_meta (codes "null") id) [] loader

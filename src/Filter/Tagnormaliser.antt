-- ===== src/Filter/Tagnormaliser.antt =====
-- tagnormaliser.go of pkg/sdk/logging/model/filter.
use logging_operator.Base.{Text, codes, Option, List, [], ◌∷◌, ◌⊎◌}
use logging_operator.Directive.{Directive}
use logging_operator.StringsMap.{Json, Field, FieldFault, SecretLoader}
use logging_operator.StringsMap.Tagged.{plugin_tagged, text_value}
use logging_operator.StringsMap.Fields.{new_flat_directive}
use logging_operator.Filter.{rewriting_meta}

pub record TagNormaliser : Type 0 where
  pub format : Text

unfoldable pub tag_normaliser_fields : {S : Type 0} → TagNormaliser → List (Field S)
unfolding plugin_tagged text_value
tag_normaliser_fields x =
    plugin_tagged "Format" "format,omitempty"
      "default:${namespace_name}.${pod_name}.${container_name}" (text_value x.format)
    ∷ []

-- `TagNormaliser.ToDirective`
unfoldable pub tag_normaliser_to_directive :
    {S : Type 0}
    → Json
    → Option (SecretLoader S)
    → Text
    → TagNormaliser
    → Directive ⊎ List FieldFault
unfolding new_flat_directive rewriting_meta
tag_normaliser_to_directive json loader id x =
    new_flat_directive json (rewriting_meta (codes "tag_normaliser") id) (tag_normaliser_fields (x))
      loader

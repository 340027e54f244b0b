-- ===== src/Filter/Dedot.antt =====
-- dedot.go of pkg/sdk/logging/model/filter.
use logging_operator.Base.{Text, codes, Bool, Option, List, [], ◌∷◌, ◌⊎◌}
use logging_operator.Directive.{Directive}
use logging_operator.StringsMap.{Json, Field, FieldFault, SecretLoader}
use logging_operator.StringsMap.Tagged.{tagged, text_value, bool_value}
use logging_operator.StringsMap.Fields.{new_flat_directive}
use logging_operator.Filter.{filter_meta}

pub record DedotFilterConfig : Type 0 where
  pub nested : Bool
  pub separator : Text

unfoldable pub dedot_fields : {S : Type 0} → DedotFilterConfig → List (Field S)
unfolding bool_value tagged text_value
dedot_fields x =
    tagged "Nested" "de_dot_nested,omitempty" (bool_value x.nested)
    ∷ tagged "Separator" "de_dot_separator,omitempty" (text_value x.separator)
    ∷ []

-- `DedotFilterConfig.ToDirective`
unfoldable pub dedot_to_directive :
    {S : Type 0}
    → Json
    → Option (SecretLoader S)
    → Text
    → DedotFilterConfig
    → Directive ⊎ List FieldFault
unfolding new_flat_directive filter_meta
dedot_to_directive json loader id x =
    new_flat_directive json (filter_meta (codes "dedot") id) (dedot_fields (x)) loader

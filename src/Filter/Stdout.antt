-- ===== src/Filter/Stdout.antt =====
-- stdout.go of pkg/sdk/logging/model/filter.
use logging_operator.Base.{Text, codes, Option, List, [], ◌∷◌, ◌⊎◌}
use logging_operator.Directive.{Directive}
use logging_operator.StringsMap.{Json, Field, FieldFault, SecretLoader}
use logging_operator.StringsMap.Tagged.{tagged, text_value}
use logging_operator.StringsMap.Fields.{new_flat_directive}
use logging_operator.Filter.{filter_meta}

pub record StdOutFilterConfig : Type 0 where
  pub output_type : Text

unfoldable pub stdout_fields : {S : Type 0} → StdOutFilterConfig → List (Field S)
unfolding tagged text_value
stdout_fields x = tagged "OutputType" "output_type,omitempty" (text_value x.output_type) ∷ []

-- `StdOutFilterConfig.ToDirective`
unfoldable pub stdout_to_directive :
    {S : Type 0}
    → Json
    → Option (SecretLoader S)
    → Text
    → StdOutFilterConfig
    → Directive ⊎ List FieldFault
unfolding new_flat_directive filter_meta
stdout_to_directive json loader id x =
    new_flat_directive json (filter_meta (codes "stdout") id) (stdout_fields (x)) loader

-- ===== src/Filter/DetectExceptions.antt =====
-- detect_exceptions.go of pkg/sdk/logging/model/filter.
use logging_operator.Base.{Text, codes, Bool, Option, List, [], ◌∷◌, ◌⊎◌}
use logging_operator.Base.Int.{ℤ}
use logging_operator.Directive.{Directive}
use logging_operator.StringsMap.{Json, strings, Field, FieldFault, SecretLoader}
use logging_operator.StringsMap.Tagged.{tagged, text_value, int_value, bool_value}
use logging_operator.StringsMap.Fields.{new_flat_directive}
use logging_operator.Filter.{rewriting_meta}

pub record DetectExceptions : Type 0 where
  pub message : Text
  pub remove_tag_prefix : Text
  pub multiline_flush_interval : Text
  pub languages : Option (List Text)
  pub max_lines : ℤ
  pub max_bytes : ℤ
  pub stream : Text
  pub force_line_breaks : Bool

unfoldable pub detect_exceptions_fields : {S : Type 0} → DetectExceptions → List (Field S)
unfolding bool_value int_value tagged text_value
detect_exceptions_fields x =
    tagged "Message" "message,omitempty" (text_value x.message)
    ∷ tagged "RemoveTagPrefix" "remove_tag_prefix,omitempty" (text_value x.remove_tag_prefix)
    ∷ tagged "MultilineFlushInterval" "multiline_flush_interval,omitempty"
        (text_value x.multiline_flush_interval)
    ∷ tagged "Languages" "languages,omitempty" (strings x.languages)
    ∷ tagged "MaxLines" "max_lines,omitempty" (int_value x.max_lines)
    ∷ tagged "MaxBytes" "max_bytes,omitempty" (int_value x.max_bytes)
    ∷ tagged "Stream" "stream,omitempty" (text_value x.stream)
    ∷ tagged "ForceLineBreaks" "force_line_breaks,omitempty" (bool_value x.force_line_breaks)
    ∷ []

-- `DetectExceptions.ToDirective`
unfoldable pub detect_exceptions_to_directive :
    {S : Type 0}
    → Json
    → Option (SecretLoader S)
    → Text
    → DetectExceptions
    → Directive ⊎ List FieldFault
unfolding new_flat_directive rewriting_meta
detect_exceptions_to_directive json loader id x =
    new_flat_directive json (rewriting_meta (codes "detect_exceptions") id)
      (detect_exceptions_fields (record x { remove_tag_prefix = codes "kubernetes" })) loader

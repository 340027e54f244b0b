-- ===== src/Filter/Concat.antt =====
-- concat.go of pkg/sdk/logging/model/filter.
use logging_operator.Base.{Text, codes, is_empty, Bool, Option, List, [], ◌∷◌, ◌⊎◌, if◌then◌else◌}
use logging_operator.Base.Int.{ℤ}
use logging_operator.Directive.{Directive, get_log_key}
use logging_operator.StringsMap.{Json, Field, FieldFault, SecretLoader}
use logging_operator.StringsMap.Tagged.{tagged, text_value, int_value, bool_value}
use logging_operator.StringsMap.Fields.{new_flat_directive}
use logging_operator.Filter.{filter_meta}

pub record Concat : Type 0 where
  pub key : Text
  pub separator : Text
  pub n_lines : ℤ
  pub multiline_start_regexp : Text
  pub multiline_end_regexp : Text
  pub continuous_line_regexp : Text
  pub stream_identity_key : Text
  pub flush_interval : ℤ
  pub timeout_label : Text
  pub use_first_timestamp : Bool
  pub partial_key : Text
  pub partial_value : Text
  pub keep_partial_key : Bool
  pub use_partial_metadata : Text
  pub keep_partial_metadata : Text

unfoldable pub concat_fields : {S : Type 0} → Concat → List (Field S)
unfolding bool_value int_value tagged text_value
concat_fields x =
    tagged "Key" "key,omitempty" (text_value x.key)
    ∷ tagged "Separator" "separator,omitempty" (text_value x.separator)
    ∷ tagged "NLines" "n_lines,omitempty" (int_value x.n_lines)
    ∷ tagged "MultilineStartRegexp" "multiline_start_regexp,omitempty"
        (text_value x.multiline_start_regexp)
    ∷ tagged "MultilineEndRegexp" "multiline_end_regexp,omitempty"
        (text_value x.multiline_end_regexp)
    ∷ tagged "ContinuousLineRegexp" "continuous_line_regexp,omitempty"
        (text_value x.continuous_line_regexp)
    ∷ tagged "StreamIdentityKey" "stream_identity_key,omitempty" (text_value x.stream_identity_key)
    ∷ tagged "FlushInterval" "flush_interval,omitempty" (int_value x.flush_interval)
    ∷ tagged "TimeoutLabel" "timeout_label,omitempty" (text_value x.timeout_label)
    ∷ tagged "UseFirstTimestamp" "use_first_timestamp,omitempty" (bool_value x.use_first_timestamp)
    ∷ tagged "PartialKey" "partial_key,omitempty" (text_value x.partial_key)
    ∷ tagged "PartialValue" "partial_value,omitempty" (text_value x.partial_value)
    ∷ tagged "KeepPartialKey" "keep_partial_key,omitempty" (bool_value x.keep_partial_key)
    ∷ tagged "UsePartialMetadata" "use_partial_metadata,omitempty"
        (text_value x.use_partial_metadata)
    ∷ tagged "KeepPartialMetadata" "keep_partial_metadata,omitempty"
        (text_value x.keep_partial_metadata)
    ∷ []

-- `Concat.ToDirective`, with the container runtime that names the default key
unfoldable pub concat_to_directive :
    {S : Type 0}
    → Text
    → Json
    → Option (SecretLoader S)
    → Text
    → Concat
    → Directive ⊎ List FieldFault
unfolding new_flat_directive filter_meta concat_fields get_log_key
concat_to_directive runtime json loader id x =
    new_flat_directive json (filter_meta (codes "concat") id)
      (concat_fields (record x { key = if is_empty x.key then get_log_key runtime else x.key }))
      loader

-- ===== src/Filter/Throttle.antt =====
-- throttle.go of pkg/sdk/logging/model/filter.
use logging_operator.Base.{Text, codes, Bool, Option, List, [], ◌∷◌, ◌⊎◌}
use logging_operator.Base.Int.{ℤ}
use logging_operator.Directive.{Directive}
use logging_operator.StringsMap.{Json, Field, FieldFault, SecretLoader}
use logging_operator.StringsMap.Tagged.{tagged, text_value, int_value, bool_value}
use logging_operator.StringsMap.Fields.{new_flat_directive}
use logging_operator.Filter.{filter_meta}

pub record Throttle : Type 0 where
  pub group_key : Text
  pub group_bucket_period_seconds : ℤ
  pub group_bucket_limit : ℤ
  pub group_drop_logs : Bool
  pub group_reset_rate_seconds : ℤ
  pub group_warning_delay_seconds : ℤ

unfoldable pub throttle_fields : {S : Type 0} → Throttle → List (Field S)
unfolding bool_value int_value tagged text_value
throttle_fields x =
    tagged "GroupKey" "group_key,omitempty" (text_value x.group_key)
    ∷ tagged "GroupBucketPeriodSeconds" "group_bucket_period_s,omitempty"
        (int_value x.group_bucket_period_seconds)
    ∷ tagged "GroupBucketLimit" "group_bucket_limit,omitempty" (int_value x.group_bucket_limit)
    ∷ tagged "GroupDropLogs" "group_drop_logs,omitempty" (bool_value x.group_drop_logs)
    ∷ tagged "GroupResetRateSeconds" "group_reset_rate_s,omitempty"
        (int_value x.group_reset_rate_seconds)
    ∷ tagged "GroupWarningDelaySeconds" "group_warning_delay_s,omitempty"
        (int_value x.group_warning_delay_seconds)
    ∷ []

-- `Throttle.ToDirective`
unfoldable pub throttle_to_directive :
    {S : Type 0} → Json → Option (SecretLoader S) → Text → Throttle → Directive ⊎ List FieldFault
unfolding new_flat_directive filter_meta
throttle_to_directive json loader id x =
    new_flat_directive json (filter_meta (codes "throttle") id) (throttle_fields (x)) loader

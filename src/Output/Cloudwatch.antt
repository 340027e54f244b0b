-- ===== src/Output/Cloudwatch.antt =====
-- cloudwatch.go of pkg/sdk/logging/model/output.
use logging_operator.Base.{Text, codes, Bool, Option, List, [], ◌∷◌, ◌++◌, ◌⊎◌}
use logging_operator.Base.Int.{ℤ}
use logging_operator.Directive.{Directive}
use logging_operator.StringsMap.{Json, secret, Field, FieldFault, SecretLoader}
use logging_operator.StringsMap.Tagged.{tagged, text_value, int_value, bool_value, struct_pointer}
use logging_operator.Output.{match_meta, optional, or_empty, plugin_directive}
use logging_operator.Output.Buffer.{Buffer, empty_buffer, buffer_to_directive}
use logging_operator.Output.Format.{Format, format_to_directive}

pub record CloudWatchOutput (S : Type 0) : Type 0 where
  pub auto_create_stream : Bool
  pub aws_access_key : Option S
  pub aws_secret_key : Option S
  pub aws_instance_profile_credentials_retries : ℤ
  pub aws_use_sts : Bool
  pub aws_sts_role_arn : Text
  pub aws_sts_session_name : Text
  pub concurrency : ℤ
  pub endpoint : Text
  pub http_proxy : Text
  pub include_time_key : Bool
  pub json_handler : Text
  pub localtime : Bool
  pub log_group_aws_tags : Text
  pub log_group_aws_tags_key : Text
  pub log_group_name : Text
  pub log_group_name_key : Text
  pub log_rejected_request : Text
  pub log_stream_name : Text
  pub log_stream_name_key : Text
  pub max_events_per_batch : ℤ
  pub max_message_length : ℤ
  pub message_keys : Text
  pub put_log_events_disable_retry_limit : Bool
  pub put_log_events_retry_limit : ℤ
  pub put_log_events_retry_wait : Text
  pub region : Text
  pub remove_log_group_aws_tags_key : Text
  pub remove_log_group_name_key : Text
  pub remove_log_stream_name_key : Text
  pub remove_retention_in_days : Text
  pub retention_in_days : Text
  pub retention_in_days_key : Text
  pub use_tag_as_group : Bool
  pub use_tag_as_stream : Bool
  pub buffer : Option Buffer
  pub format : Option Format

unfoldable pub cloudwatch_fields : {S : Type 0} → CloudWatchOutput S → List (Field S)
unfolding bool_value int_value struct_pointer tagged text_value
cloudwatch_fields x =
    tagged "AutoCreateStream" "auto_create_stream,omitempty" (bool_value x.auto_create_stream)
    ∷ tagged "AwsAccessKey" "aws_key_id,omitempty" (secret x.aws_access_key)
    ∷ tagged "AwsSecretKey" "aws_sec_key,omitempty" (secret x.aws_secret_key)
    ∷ tagged "AwsInstanceProfileCredentialsRetries"
        "aws_instance_profile_credentials_retries,omitempty"
        (int_value x.aws_instance_profile_credentials_retries)
    ∷ tagged "AwsUseSts" "aws_use_sts,omitempty" (bool_value x.aws_use_sts)
    ∷ tagged "AwsStsRoleArn" "aws_sts_role_arn,omitempty" (text_value x.aws_sts_role_arn)
    ∷ tagged "AwsStsSessionName" "aws_sts_session_name,omitempty"
        (text_value x.aws_sts_session_name)
    ∷ tagged "Concurrency" "concurrency,omitempty" (int_value x.concurrency)
    ∷ tagged "Endpoint" "endpoint,omitempty" (text_value x.endpoint)
    ∷ tagged "HttpProxy" "http_proxy,omitempty" (text_value x.http_proxy)
    ∷ tagged "IncludeTimeKey" "include_time_key,omitempty" (bool_value x.include_time_key)
    ∷ tagged "JsonHandler" "json_handler,omitempty" (text_value x.json_handler)
    ∷ tagged "Localtime" "localtime,omitempty" (bool_value x.localtime)
    ∷ tagged "LogGroupAwsTags" "log_group_aws_tags,omitempty" (text_value x.log_group_aws_tags)
    ∷ tagged "LogGroupAwsTagsKey" "log_group_aws_tags_key,omitempty"
        (text_value x.log_group_aws_tags_key)
    ∷ tagged "LogGroupName" "log_group_name,omitempty" (text_value x.log_group_name)
    ∷ tagged "LogGroupNameKey" "log_group_name_key,omitempty" (text_value x.log_group_name_key)
    ∷ tagged "LogRejectedRequest" "log_rejected_request,omitempty"
        (text_value x.log_rejected_request)
    ∷ tagged "LogStreamName" "log_stream_name,omitempty" (text_value x.log_stream_name)
    ∷ tagged "LogStreamNameKey" "log_stream_name_key,omitempty" (text_value x.log_stream_name_key)
    ∷ tagged "MaxEventsPerBatch" "max_events_per_batch,omitempty" (int_value x.max_events_per_batch)
    ∷ tagged "MaxMessageLength" "max_message_length,omitempty" (int_value x.max_message_length)
    ∷ tagged "MessageKeys" "message_keys,omitempty" (text_value x.message_keys)
    ∷ tagged "PutLogEventsDisableRetryLimit" "put_log_events_disable_retry_limit,omitempty"
        (bool_value x.put_log_events_disable_retry_limit)
    ∷ tagged "PutLogEventsRetryLimit" "put_log_events_retry_limit,omitempty"
        (int_value x.put_log_events_retry_limit)
    ∷ tagged "PutLogEventsRetryWait" "put_log_events_retry_wait,omitempty"
        (text_value x.put_log_events_retry_wait)
    ∷ tagged "Region" "region" (text_value x.region)
    ∷ tagged "RemoveLogGroupAwsTagsKey" "remove_log_group_aws_tags_key,omitempty"
        (text_value x.remove_log_group_aws_tags_key)
    ∷ tagged "RemoveLogGroupNameKey" "remove_log_group_name_key,omitempty"
        (text_value x.remove_log_group_name_key)
    ∷ tagged "RemoveLogStreamNameKey" "remove_log_stream_name_key,omitempty"
        (text_value x.remove_log_stream_name_key)
    ∷ tagged "RemoveRetentionInDays" "remove_retention_in_days,omitempty"
        (text_value x.remove_retention_in_days)
    ∷ tagged "RetentionInDays" "retention_in_days,omitempty" (text_value x.retention_in_days)
    ∷ tagged "RetentionInDaysKey" "retention_in_days_key,omitempty"
        (text_value x.retention_in_days_key)
    ∷ tagged "UseTagAsGroup" "use_tag_as_group,omitempty" (bool_value x.use_tag_as_group)
    ∷ tagged "UseTagAsStream" "use_tag_as_stream,omitempty" (bool_value x.use_tag_as_stream)
    ∷ tagged "Buffer" "buffer,omitempty" (struct_pointer x.buffer)
    ∷ tagged "Format" "format,omitempty" (struct_pointer x.format)
    ∷ []

-- `CloudWatchOutput.ToDirective`
unfoldable pub cloudwatch_to_directive :
    {S : Type 0}
    → Json
    → Option (SecretLoader S)
    → Text
    → CloudWatchOutput S
    → Directive ⊎ List FieldFault
cloudwatch_to_directive json loader id x =
    plugin_directive json loader (match_meta (codes "cloudwatch_logs") id) (cloudwatch_fields x) (
      (buffer_to_directive json loader id (or_empty empty_buffer x.buffer) ∷ [])
      ++ (optional (format_to_directive json loader) x.format))

-- ===== src/Output/KinesisFirehose.antt =====
-- kinesis_firehose.go of pkg/sdk/logging/model/output.
use logging_operator.Base.{Text, codes, Bool, Option, List, [], ◌∷◌, ◌++◌, ◌⊎◌}
use logging_operator.Base.Int.{ℤ}
use logging_operator.Directive.{meta_of, Directive}
use logging_operator.StringsMap.{Json, secret, Field, FieldFault, SecretLoader}
use logging_operator.StringsMap.Tagged.{
  tagged, text_value, int_value, bool_value, bool_pointer, struct_pointer,
}
use logging_operator.StringsMap.Fields.{new_flat_directive}
use logging_operator.Output.{match_meta, optional, or_empty, plugin_directive}
use logging_operator.Output.Buffer.{Buffer, empty_buffer, buffer_to_directive}
use logging_operator.Output.Format.{Format, format_to_directive}

pub record KinesisFirehoseAssumeRoleCredentials : Type 0 where
  pub role_arn : Text
  pub role_session_name : Text
  pub policy : Text
  pub duration_seconds : Text
  pub external_id : Text

unfoldable pub firehose_assume_role_fields :
    {S : Type 0} → KinesisFirehoseAssumeRoleCredentials → List (Field S)
unfolding tagged text_value
firehose_assume_role_fields x =
    tagged "RoleArn" "role_arn" (text_value x.role_arn)
    ∷ tagged "RoleSessionName" "role_session_name" (text_value x.role_session_name)
    ∷ tagged "Policy" "policy,omitempty" (text_value x.policy)
    ∷ tagged "DurationSeconds" "duration_seconds,omitempty" (text_value x.duration_seconds)
    ∷ tagged "ExternalId" "external_id,omitempty" (text_value x.external_id)
    ∷ []

unfoldable pub firehose_assume_role_to_directive :
    {S : Type 0}
    → Json
    → Option (SecretLoader S)
    → KinesisFirehoseAssumeRoleCredentials
    → Directive ⊎ List FieldFault
unfolding firehose_assume_role_fields new_flat_directive
firehose_assume_role_to_directive json loader x =
    new_flat_directive json (meta_of (codes "assume_role_credentials"))
      (firehose_assume_role_fields x) loader

pub record KinesisFirehoseProcessCredentials : Type 0 where
  pub process : Text

unfoldable pub firehose_process_fields :
    {S : Type 0} → KinesisFirehoseProcessCredentials → List (Field S)
unfolding tagged text_value
firehose_process_fields x = tagged "Process" "process" (text_value x.process) ∷ []

unfoldable pub firehose_process_to_directive :
    {S : Type 0}
    → Json
    → Option (SecretLoader S)
    → KinesisFirehoseProcessCredentials
    → Directive ⊎ List FieldFault
unfolding firehose_process_fields new_flat_directive
firehose_process_to_directive json loader x =
    new_flat_directive json (meta_of (codes "process_credentials")) (firehose_process_fields x)
      loader

pub record KinesisFirehoseOutputConfig (S : Type 0) : Type 0 where
  pub delivery_stream_name : Text
  pub append_new_line : Option Bool
  pub aws_key_id : Option S
  pub awssec_key : Option S
  pub awsses_token : Option S
  pub awsiam_retries : ℤ
  pub assume_role_credentials : Option KinesisFirehoseAssumeRoleCredentials
  pub process_credentials : Option KinesisFirehoseProcessCredentials
  pub region : Text
  pub retries_on_batch_request : ℤ
  pub reset_backoff_if_success : Bool
  pub batch_request_max_count : ℤ
  pub batch_request_max_size : ℤ
  pub format : Option Format
  pub buffer : Option Buffer

unfoldable pub kinesis_firehose_fields :
    {S : Type 0} → KinesisFirehoseOutputConfig S → List (Field S)
unfolding bool_pointer bool_value int_value struct_pointer tagged text_value
kinesis_firehose_fields x =
    tagged "DeliveryStreamName" "delivery_stream_name" (text_value x.delivery_stream_name)
    ∷ tagged "AppendNewLine" "append_new_line,omitempty" (bool_pointer x.append_new_line)
    ∷ tagged "AWSKeyId" "aws_key_id,omitempty" (secret x.aws_key_id)
    ∷ tagged "AWSSECKey" "aws_sec_key,omitempty" (secret x.awssec_key)
    ∷ tagged "AWSSESToken" "aws_ses_token,omitempty" (secret x.awsses_token)
    ∷ tagged "AWSIAMRetries" "aws_iam_retries,omitempty" (int_value x.awsiam_retries)
    ∷ tagged "AssumeRoleCredentials" "assume_role_credentials,omitempty"
        (struct_pointer x.assume_role_credentials)
    ∷ tagged "ProcessCredentials" "process_credentials,omitempty"
        (struct_pointer x.process_credentials)
    ∷ tagged "Region" "region,omitempty" (text_value x.region)
    ∷ tagged "RetriesOnBatchRequest" "retries_on_batch_request,omitempty"
        (int_value x.retries_on_batch_request)
    ∷ tagged "ResetBackoffIfSuccess" "reset_backoff_if_success,omitempty"
        (bool_value x.reset_backoff_if_success)
    ∷ tagged "BatchRequestMaxCount" "batch_request_max_count,omitempty"
        (int_value x.batch_request_max_count)
    ∷ tagged "BatchRequestMaxSize" "batch_request_max_size,omitempty"
        (int_value x.batch_request_max_size)
    ∷ tagged "Format" "format,omitempty" (struct_pointer x.format)
    ∷ tagged "Buffer" "buffer,omitempty" (struct_pointer x.buffer)
    ∷ []

-- `KinesisFirehoseOutputConfig.ToDirective`
unfoldable pub kinesis_firehose_to_directive :
    {S : Type 0}
    → Json
    → Option (SecretLoader S)
    → Text
    → KinesisFirehoseOutputConfig S
    → Directive ⊎ List FieldFault
kinesis_firehose_to_directive json loader id x =
    plugin_directive json loader (match_meta (codes "kinesis_firehose") id)
      (kinesis_firehose_fields x)
      ((optional (firehose_assume_role_to_directive json loader) x.assume_role_credentials)
        ++ (optional (firehose_process_to_directive json loader) x.process_credentials)
        ++ (buffer_to_directive json loader id (or_empty empty_buffer x.buffer) ∷ [])
        ++ (optional (format_to_directive json loader) x.format))

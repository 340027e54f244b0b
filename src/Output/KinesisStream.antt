-- ===== src/Output/KinesisStream.antt =====
-- kinesis_stream.go of pkg/sdk/logging/model/output.
use logging_operator.Base.{Text, codes, Bool, Option, List, [], ◌∷◌, ◌++◌, ◌⊎◌}
use logging_operator.Base.Int.{ℤ}
use logging_operator.Directive.{meta_of, Directive}
use logging_operator.StringsMap.{Json, secret, Field, FieldFault, SecretLoader}
use logging_operator.StringsMap.Tagged.{tagged, text_value, int_value, bool_value, struct_pointer}
use logging_operator.StringsMap.Fields.{new_flat_directive}
use logging_operator.Output.{match_meta, optional, or_empty, plugin_directive}
use logging_operator.Output.Buffer.{Buffer, empty_buffer, buffer_to_directive}
use logging_operator.Output.Format.{Format, format_to_directive}

pub record KinesisStreamAssumeRoleCredentials : Type 0 where
  pub role_arn : Text
  pub role_session_name : Text
  pub policy : Text
  pub duration_seconds : Text
  pub external_id : Text

unfoldable pub stream_assume_role_fields :
    {S : Type 0} → KinesisStreamAssumeRoleCredentials → List (Field S)
unfolding tagged text_value
stream_assume_role_fields x =
    tagged "RoleArn" "role_arn" (text_value x.role_arn)
    ∷ tagged "RoleSessionName" "role_session_name" (text_value x.role_session_name)
    ∷ tagged "Policy" "policy,omitempty" (text_value x.policy)
    ∷ tagged "DurationSeconds" "duration_seconds,omitempty" (text_value x.duration_seconds)
    ∷ tagged "ExternalId" "external_id,omitempty" (text_value x.external_id)
    ∷ []

unfoldable pub stream_assume_role_to_directive :
    {S : Type 0}
    → Json
    → Option (SecretLoader S)
    → KinesisStreamAssumeRoleCredentials
    → Directive ⊎ List FieldFault
unfolding stream_assume_role_fields new_flat_directive
stream_assume_role_to_directive json loader x =
    new_flat_directive json (meta_of (codes "assume_role_credentials"))
      (stream_assume_role_fields x) loader

pub record KinesisStreamProcessCredentials : Type 0 where
  pub process : Text

unfoldable pub stream_process_fields :
    {S : Type 0} → KinesisStreamProcessCredentials → List (Field S)
unfolding tagged text_value
stream_process_fields x = tagged "Process" "process" (text_value x.process) ∷ []

unfoldable pub stream_process_to_directive :
    {S : Type 0}
    → Json
    → Option (SecretLoader S)
    → KinesisStreamProcessCredentials
    → Directive ⊎ List FieldFault
unfolding stream_process_fields new_flat_directive
stream_process_to_directive json loader x =
    new_flat_directive json (meta_of (codes "process_credentials")) (stream_process_fields x) loader

pub record KinesisStreamOutputConfig (S : Type 0) : Type 0 where
  pub stream_name : Text
  pub partition_key : Text
  pub aws_key_id : Option S
  pub awssec_key : Option S
  pub awsses_token : Option S
  pub awsiam_retries : ℤ
  pub assume_role_credentials : Option KinesisStreamAssumeRoleCredentials
  pub process_credentials : Option KinesisStreamProcessCredentials
  pub region : Text
  pub retries_on_batch_request : ℤ
  pub reset_backoff_if_success : Bool
  pub batch_request_max_count : ℤ
  pub batch_request_max_size : ℤ
  pub format : Option Format
  pub buffer : Option Buffer

unfoldable pub kinesis_stream_fields : {S : Type 0} → KinesisStreamOutputConfig S → List (Field S)
unfolding bool_value int_value struct_pointer tagged text_value
kinesis_stream_fields x =
    tagged "StreamName" "stream_name" (text_value x.stream_name)
    ∷ tagged "PartitionKey" "partition_key,omitempty" (text_value x.partition_key)
    ∷ tagged "AWSKeyId" "aws_key_id,omitempty" (secret x.aws_key_id)
    ∷ tagged "AWSSECKey" "aws_sec_key,omitempty" (secret x.awssec_key)
    ∷ tagged "AWSSESToken" "aws_ses_token,omitempty" (secret x.awsses_token)
    ∷ tagged "AWSIAMRetries" "aws_iam_retries,omitempty" (int_value x.awsiam_retries)
    ∷ tagged "AssumeRoleCredentials" "assume_role_credentials,omitempty"
        (struct_pointer x.assume_role_credentials)
    ∷ tagged "ProcessCredentials" "process_credentials,omitempty"
        (struct_pointer x.process_credentials)
    ∷ tagged "Region" "region,omitempty" (text_value x.region)
    ∷ tagged "RetriesOnBatchRequest" "retries_on_batch_request,omitempty"
        (int_value x.retries_on_batch_request)
    ∷ tagged "ResetBackoffIfSuccess" "reset_backoff_if_success,omitempty"
        (bool_value x.reset_backoff_if_success)
    ∷ tagged "BatchRequestMaxCount" "batch_request_max_count,omitempty"
        (int_value x.batch_request_max_count)
    ∷ tagged "BatchRequestMaxSize" "batch_request_max_size,omitempty"
        (int_value x.batch_request_max_size)
    ∷ tagged "Format" "format,omitempty" (struct_pointer x.format)
    ∷ tagged "Buffer" "buffer,omitempty" (struct_pointer x.buffer)
    ∷ []

-- `KinesisStreamOutputConfig.ToDirective`
unfoldable pub kinesis_stream_to_directive :
    {S : Type 0}
    → Json
    → Option (SecretLoader S)
    → Text
    → KinesisStreamOutputConfig S
    → Directive ⊎ List FieldFault
kinesis_stream_to_directive json loader id x =
    plugin_directive json loader (match_meta (codes "kinesis_streams") id) (kinesis_stream_fields x)
      ((optional (stream_assume_role_to_directive json loader) x.assume_role_credentials)
        ++ (optional (stream_process_to_directive json loader) x.process_credentials)
        ++ (buffer_to_directive json loader id (or_empty empty_buffer x.buffer) ∷ [])
        ++ (optional (format_to_directive json loader) x.format))

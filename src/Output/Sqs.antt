-- ===== src/Output/Sqs.antt =====
-- sqs.go of pkg/sdk/logging/model/output.
use logging_operator.Base.{Text, codes, Bool, Option, List, [], ◌∷◌, ◌⊎◌}
use logging_operator.Base.Int.{ℤ}
use logging_operator.Directive.{Directive}
use logging_operator.StringsMap.{Json, secret, Field, FieldFault, SecretLoader}
use logging_operator.StringsMap.Tagged.{tagged, text_value, int_value, bool_pointer, struct_pointer}
use logging_operator.Output.{match_meta, or_empty, plugin_directive}
use logging_operator.Output.Buffer.{Buffer, empty_buffer, buffer_to_directive}

pub record SqsOutputConfig (S : Type 0) : Type 0 where
  pub sqs_url : Text
  pub queue_name : Text
  pub aws_key_id : Option S
  pub aws_sec_key : Option S
  pub create_queue : Option Bool
  pub region : Text
  pub message_group_id : Text
  pub delay_seconds : ℤ
  pub include_tag : Option Bool
  pub tag_property_name : Text
  pub buffer : Option Buffer

unfoldable pub sqs_fields : {S : Type 0} → SqsOutputConfig S → List (Field S)
unfolding bool_pointer int_value struct_pointer tagged text_value
sqs_fields x =
    tagged "SQSUrl" "sqs_url,omitempty" (text_value x.sqs_url)
    ∷ tagged "QueueName" "queue_name,omitempty" (text_value x.queue_name)
    ∷ tagged "AWSKeyId" "aws_key_id,omitempty" (secret x.aws_key_id)
    ∷ tagged "AWSSecKey" "aws_sec_key,omitempty" (secret x.aws_sec_key)
    ∷ tagged "CreateQueue" "create_queue,omitempty" (bool_pointer x.create_queue)
    ∷ tagged "Region" "region,omitempty" (text_value x.region)
    ∷ tagged "MessageGroupId" "message_group_id,omitempty" (text_value x.message_group_id)
    ∷ tagged "DelaySeconds" "delay_seconds,omitempty" (int_value x.delay_seconds)
    ∷ tagged "IncludeTag" "include_tag,omitempty" (bool_pointer x.include_tag)
    ∷ tagged "TagPropertyName" "tag_property_name,omitempty" (text_value x.tag_property_name)
    ∷ tagged "Buffer" "buffer,omitempty" (struct_pointer x.buffer)
    ∷ []

-- `SQSOutputConfig.ToDirective`
unfoldable pub sqs_to_directive :
    {S : Type 0}
    → Json
    → Option (SecretLoader S)
    → Text
    → SqsOutputConfig S
    → Directive ⊎ List FieldFault
sqs_to_directive json loader id x =
    plugin_directive json loader (match_meta (codes "sqs") id) (sqs_fields x)
      ((buffer_to_directive json loader id (or_empty empty_buffer x.buffer) ∷ []))

-- ===== src/Output/Kafka.antt =====
-- kafka.go of pkg/sdk/logging/model/output.
use logging_operator.Base.{Text, codes, Bool, Option, List, [], ◌∷◌, ◌++◌, ◌⊎◌}
use logging_operator.Base.Int.{ℤ}
use logging_operator.Base.Assoc.{Assoc}
use logging_operator.Directive.{Directive}
use logging_operator.StringsMap.{Json, string_map, secret, Field, FieldFault, SecretLoader}
use logging_operator.StringsMap.Tagged.{
  tagged, text_value, int_value, bool_value, bool_pointer, struct_pointer,
}
use logging_operator.Output.{match_meta, optional, or_empty, plugin_directive}
use logging_operator.Output.Buffer.{Buffer, empty_buffer, buffer_to_directive}
use logging_operator.Output.Format.{Format, format_to_directive}

pub record KafkaOutputConfig (S : Type 0) : Type 0 where
  pub brokers : Text
  pub topic_key : Text
  pub partition_key : Text
  pub partition_key_key : Text
  pub message_key_key : Text
  pub client_id : Text
  pub default_topic : Text
  pub default_partition_key : Text
  pub default_message_key : Text
  pub exclude_topic_key : Bool
  pub exclude_partition_key : Bool
  pub get_kafka_client_log : Bool
  pub headers : Option (Assoc Text)
  pub headers_from_record : Option (Assoc Text)
  pub use_default_for_unknown_topic : Bool
  pub idempotent : Bool
  pub sasl_over_ssl : Bool
  pub username : Option S
  pub password : Option S
  pub scram_mechanism : Text
  pub max_send_retries : ℤ
  pub required_acks : ℤ
  pub ack_timeout : ℤ
  pub compression_codec : Text
  pub kafka_agg_max_bytes : ℤ
  pub kafka_agg_max_messages : ℤ
  pub discard_kafka_delivery_failed : Bool
  pub sslca_certs_from_system : Option Bool
  pub sslca_cert : Option S
  pub ssl_client_cert : Option S
  pub ssl_client_cert_chain : Option S
  pub ssl_client_cert_key : Option S
  pub ssl_verify_hostname : Option Bool
  pub format : Option Format
  pub buffer : Option Buffer

unfoldable pub kafka_fields : {S : Type 0} → KafkaOutputConfig S → List (Field S)
unfolding bool_pointer bool_value int_value struct_pointer tagged text_value
kafka_fields x =
    tagged "Brokers" "brokers" (text_value x.brokers)
    ∷ tagged "TopicKey" "topic_key,omitempty" (text_value x.topic_key)
    ∷ tagged "PartitionKey" "partition_key,omitempty" (text_value x.partition_key)
    ∷ tagged "PartitionKeyKey" "partition_key_key,omitempty" (text_value x.partition_key_key)
    ∷ tagged "MessageKeyKey" "message_key_key,omitempty" (text_value x.message_key_key)
    ∷ tagged "ClientId" "client_id,omitempty" (text_value x.client_id)
    ∷ tagged "DefaultTopic" "default_topic,omitempty" (text_value x.default_topic)
    ∷ tagged "DefaultPartitionKey" "default_partition_key,omitempty"
        (text_value x.default_partition_key)
    ∷ tagged "DefaultMessageKey" "default_message_key,omitempty" (text_value x.default_message_key)
    ∷ tagged "ExcludeTopicKey" "exclude_topic_key,omitempty" (bool_value x.exclude_topic_key)
    ∷ tagged "ExcludePartitionKey" "exclude_partion_key,omitempty"
        (bool_value x.exclude_partition_key)
    ∷ tagged "GetKafkaClientLog" "get_kafka_client_log,omitempty"
        (bool_value x.get_kafka_client_log)
    ∷ tagged "Headers" "headers,omitempty" (string_map x.headers)
    ∷ tagged "HeadersFromRecord" "headers_from_record,omitempty" (string_map x.headers_from_record)
    ∷ tagged "UseDefaultForUnknownTopic" "use_default_for_unknown_topic,omitempty"
        (bool_value x.use_default_for_unknown_topic)
    ∷ tagged "Idempotent" "idempotent,omitempty" (bool_value x.idempotent)
    ∷ tagged "SaslOverSSL" "sasl_over_ssl" (bool_value x.sasl_over_ssl)
    ∷ tagged "Username" "username,omitempty" (secret x.username)
    ∷ tagged "Password" "password,omitempty" (secret x.password)
    ∷ tagged "ScramMechanism" "scram_mechanism,omitempty" (text_value x.scram_mechanism)
    ∷ tagged "MaxSendRetries" "max_send_retries,omitempty" (int_value x.max_send_retries)
    ∷ tagged "RequiredAcks" "required_acks,omitempty" (int_value x.required_acks)
    ∷ tagged "AckTimeout" "ack_timeout,omitempty" (int_value x.ack_timeout)
    ∷ tagged "CompressionCodec" "compression_codec,omitempty" (text_value x.compression_codec)
    ∷ tagged "KafkaAggMaxBytes" "kafka_agg_max_bytes,omitempty" (int_value x.kafka_agg_max_bytes)
    ∷ tagged "KafkaAggMaxMessages" "kafka_agg_max_messages,omitempty"
        (int_value x.kafka_agg_max_messages)
    ∷ tagged "DiscardKafkaDeliveryFailed" "discard_kafka_delivery_failed,omitempty"
        (bool_value x.discard_kafka_delivery_failed)
    ∷ tagged "SSLCACertsFromSystem" "ssl_ca_certs_from_system,omitempty"
        (bool_pointer x.sslca_certs_from_system)
    ∷ tagged "SSLCACert" "ssl_ca_cert,omitempty" (secret x.sslca_cert)
    ∷ tagged "SSLClientCert" "ssl_client_cert,omitempty" (secret x.ssl_client_cert)
    ∷ tagged "SSLClientCertChain" "ssl_client_cert_chain,omitempty" (secret x.ssl_client_cert_chain)
    ∷ tagged "SSLClientCertKey" "ssl_client_cert_key,omitempty" (secret x.ssl_client_cert_key)
    ∷ tagged "SSLVerifyHostname" "ssl_verify_hostname,omitempty"
        (bool_pointer x.ssl_verify_hostname)
    ∷ tagged "Format" "format" (struct_pointer x.format)
    ∷ tagged "Buffer" "buffer,omitempty" (struct_pointer x.buffer)
    ∷ []

-- `KafkaOutputConfig.ToDirective`
unfoldable pub kafka_to_directive :
    {S : Type 0}
    → Json
    → Option (SecretLoader S)
    → Text
    → KafkaOutputConfig S
    → Directive ⊎ List FieldFault
kafka_to_directive json loader id x =
    plugin_directive json loader (match_meta (codes "kafka2") id) (kafka_fields x) (
      (buffer_to_directive json loader id (or_empty empty_buffer x.buffer) ∷ [])
      ++ (optional (format_to_directive json loader) x.format))

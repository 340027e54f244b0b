-- ===== src/Output/Sumologic.antt =====
-- sumologic.go of pkg/sdk/logging/model/output.
use logging_operator.Base.{Text, codes, Bool, Option, List, [], ◌∷◌, ◌⊎◌}
use logging_operator.Base.Int.{ℤ}
use logging_operator.Directive.{Directive}
use logging_operator.StringsMap.{Json, strings, secret, Field, FieldFault, SecretLoader}
use logging_operator.StringsMap.Tagged.{
  tagged, text_value, int_value, bool_value, bool_pointer, struct_pointer,
}
use logging_operator.Output.{match_meta, or_empty, plugin_directive}
use logging_operator.Output.Buffer.{Buffer, empty_buffer, buffer_to_directive}

pub record SumologicOutput (S : Type 0) : Type 0 where
  pub data_type : Text
  pub endpoint : Option S
  pub verify_ssl : Bool
  pub metric_data_format : Text
  pub log_format : Text
  pub log_key : Text
  pub source_category : Text
  pub source_name : Text
  pub source_name_key : Text
  pub source_host : Text
  pub open_timeout : ℤ
  pub add_timestamp : Bool
  pub timestamp_key : Text
  pub proxy_uri : Text
  pub disable_cookies : Bool
  pub delimiter : Text
  pub custom_fields : Option (List Text)
  pub sumo_client : Text
  pub compress : Option Bool
  pub compress_encoding : Text
  pub custom_dimensions : Text
  pub buffer : Option Buffer

unfoldable pub sumologic_fields : {S : Type 0} → SumologicOutput S → List (Field S)
unfolding bool_pointer bool_value int_value struct_pointer tagged text_value
sumologic_fields x =
    tagged "DataType" "data_type,omitempty" (text_value x.data_type)
    ∷ tagged "Endpoint" "endpoint" (secret x.endpoint)
    ∷ tagged "VerifySsl" "verify_ssl,omitempty" (bool_value x.verify_ssl)
    ∷ tagged "MetricDataFormat" "metric_data_format,omitempty" (text_value x.metric_data_format)
    ∷ tagged "LogFormat" "log_format,omitempty" (text_value x.log_format)
    ∷ tagged "LogKey" "log_key,omitempty" (text_value x.log_key)
    ∷ tagged "SourceCategory" "source_category,omitempty" (text_value x.source_category)
    ∷ tagged "SourceName" "source_name" (text_value x.source_name)
    ∷ tagged "SourceNameKey" "source_name_key,omitempty" (text_value x.source_name_key)
    ∷ tagged "SourceHost" "source_host,omitempty" (text_value x.source_host)
    ∷ tagged "OpenTimeout" "open_timeout,omitempty" (int_value x.open_timeout)
    ∷ tagged "AddTimestamp" "add_timestamp,omitempty" (bool_value x.add_timestamp)
    ∷ tagged "TimestampKey" "timestamp_key,omitempty" (text_value x.timestamp_key)
    ∷ tagged "ProxyUri" "proxy_uri,omitempty" (text_value x.proxy_uri)
    ∷ tagged "DisableCookies" "disable_cookies,omitempty" (bool_value x.disable_cookies)
    ∷ tagged "Delimiter" "delimiter,omitempty" (text_value x.delimiter)
    ∷ tagged "CustomFields" "custom_fields,omitempty" (strings x.custom_fields)
    ∷ tagged "SumoClient" "sumo_client,omitempty" (text_value x.sumo_client)
    ∷ tagged "Compress" "compress,omitempty" (bool_pointer x.compress)
    ∷ tagged "CompressEncoding" "compress_encoding,omitempty" (text_value x.compress_encoding)
    ∷ tagged "CustomDimensions" "custom_dimensions,omitempty" (text_value x.custom_dimensions)
    ∷ tagged "Buffer" "buffer,omitempty" (struct_pointer x.buffer)
    ∷ []

-- `SumologicOutput.ToDirective`
unfoldable pub sumologic_to_directive :
    {S : Type 0}
    → Json
    → Option (SecretLoader S)
    → Text
    → SumologicOutput S
    → Directive ⊎ List FieldFault
sumologic_to_directive json loader id x =
    plugin_directive json loader (match_meta (codes "sumologic") id) (sumologic_fields x)
      ((buffer_to_directive json loader id (or_empty empty_buffer x.buffer) ∷ []))

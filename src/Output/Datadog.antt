-- ===== src/Output/Datadog.antt =====
-- datadog.go of pkg/sdk/logging/model/output.
use logging_operator.Base.{Text, codes, Bool, Option, List, [], ◌∷◌, ◌⊎◌}
use logging_operator.Directive.{Directive}
use logging_operator.StringsMap.{Json, secret, Field, FieldFault, SecretLoader}
use logging_operator.StringsMap.Tagged.{tagged, text_value, bool_value, struct_pointer}
use logging_operator.Output.{match_meta, or_empty, plugin_directive}
use logging_operator.Output.Buffer.{Buffer, empty_buffer, buffer_to_directive}

pub record DatadogOutput (S : Type 0) : Type 0 where
  pub api_key : Option S
  pub use_json : Bool
  pub include_tag_key : Bool
  pub tag_key : Text
  pub timestamp_key : Text
  pub use_ssl : Bool
  pub no_ssl_validation : Bool
  pub ssl_port : Text
  pub max_retries : Text
  pub max_backoff : Text
  pub use_http : Bool
  pub use_compression : Bool
  pub compression_level : Text
  pub dd_source : Text
  pub dd_sourcecategory : Text
  pub dd_tags : Text
  pub dd_hostname : Text
  pub service : Text
  pub port : Text
  pub host : Text
  pub buffer : Option Buffer

unfoldable pub datadog_fields : {S : Type 0} → DatadogOutput S → List (Field S)
unfolding bool_value struct_pointer tagged text_value
datadog_fields x =
    tagged "ApiKey" "api_key" (secret x.api_key)
    ∷ tagged "UseJson" "use_json,omitempty" (bool_value x.use_json)
    ∷ tagged "IncludeTagKey" "include_tag_key,omitempty" (bool_value x.include_tag_key)
    ∷ tagged "TagKey" "tag_key,omitempty" (text_value x.tag_key)
    ∷ tagged "TimestampKey" "timestamp_key,omitempty" (text_value x.timestamp_key)
    ∷ tagged "UseSsl" "use_ssl,omitempty" (bool_value x.use_ssl)
    ∷ tagged "NoSslValidation" "no_ssl_validation,omitempty" (bool_value x.no_ssl_validation)
    ∷ tagged "SslPort" "ssl_port,omitempty" (text_value x.ssl_port)
    ∷ tagged "MaxRetries" "max_retries,omitempty" (text_value x.max_retries)
    ∷ tagged "MaxBackoff" "max_backoff,omitempty" (text_value x.max_backoff)
    ∷ tagged "UseHttp" "use_http,omitempty" (bool_value x.use_http)
    ∷ tagged "UseCompression" "use_compression,omitempty" (bool_value x.use_compression)
    ∷ tagged "CompressionLevel" "compression_level,omitempty" (text_value x.compression_level)
    ∷ tagged "DdSource" "dd_source,omitempty" (text_value x.dd_source)
    ∷ tagged "DdSourcecategory" "dd_sourcecategory,omitempty" (text_value x.dd_sourcecategory)
    ∷ tagged "DdTags" "dd_tags,omitempty" (text_value x.dd_tags)
    ∷ tagged "DdHostname" "dd_hostname,omitempty" (text_value x.dd_hostname)
    ∷ tagged "Service" "service,omitempty" (text_value x.service)
    ∷ tagged "Port" "port,omitempty" (text_value x.port)
    ∷ tagged "Host" "host,omitempty" (text_value x.host)
    ∷ tagged "Buffer" "buffer,omitempty" (struct_pointer x.buffer)
    ∷ []

-- `DatadogOutput.ToDirective`
unfoldable pub datadog_to_directive :
    {S : Type 0}
    → Json
    → Option (SecretLoader S)
    → Text
    → DatadogOutput S
    → Directive ⊎ List FieldFault
datadog_to_directive json loader id x =
    plugin_directive json loader (match_meta (codes "datadog") id) (datadog_fields x)
      ((buffer_to_directive json loader id (or_empty empty_buffer x.buffer) ∷ []))

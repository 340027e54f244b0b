-- ===== src/Output/Elasticsearch.antt =====
-- elasticsearch.go of pkg/sdk/logging/model/output.
use logging_operator.Base.{Text, codes, Bool, true, Option, some, List, [], ◌∷◌, ◌⊎◌}
use logging_operator.Base.Int.{ℤ}
use logging_operator.Directive.{Directive}
use logging_operator.StringsMap.{Json, secret, Field, FieldFault, SecretLoader}
use logging_operator.StringsMap.Tagged.{
  tagged, plugin_tagged, text_value, int_value, bool_value, text_pointer, bool_pointer,
  struct_pointer,
}
use logging_operator.Output.{match_meta, or_empty, plugin_directive}
use logging_operator.Output.Buffer.{Buffer, empty_buffer, buffer_to_directive}

pub record ElasticsearchOutput (S : Type 0) : Type 0 where
  pub host : Text
  pub port : ℤ
  pub hosts : Text
  pub user : Text
  pub password : Option S
  pub path : Text
  pub scheme : Text
  pub ssl_verify : Option Bool
  pub ssl_version : Text
  pub ssl_max_version : Text
  pub ssl_min_version : Text
  pub sslca_cert : Option S
  pub ssl_client_cert : Option S
  pub ssl_client_cert_key : Option S
  pub ssl_client_cert_key_pass : Option S
  pub logstash_format : Bool
  pub include_timestamp : Bool
  pub logstash_prefix : Text
  pub logstash_prefix_separator : Text
  pub logstash_dateformat : Text
  pub index_name : Text
  pub type_name : Text
  pub pipeline : Text
  pub time_key_format : Text
  pub time_precision : Text
  pub time_key : Text
  pub utc_index : Option Bool
  pub suppress_type_name : Option Bool
  pub target_index_key : Text
  pub target_type_key : Text
  pub template_name : Text
  pub template_file : Option S
  pub templates : Text
  pub customize_template : Text
  pub rollover_index : Bool
  pub index_date_pattern : Option Text
  pub deflector_alias : Text
  pub index_prefix : Text
  pub application_name : Option Text
  pub template_overwrite : Bool
  pub max_retry_putting_template : Text
  pub fail_on_putting_template_retry_exceed : Option Bool
  pub max_retry_get_es_version : Text
  pub request_timeout : Text
  pub reload_connections : Option Bool
  pub reload_on_failure : Bool
  pub reload_after : Text
  pub resurrect_after : Text
  pub include_tag_key : Bool
  pub tag_key : Text
  pub id_key : Text
  pub routing_key : Text
  pub remove_keys : Text
  pub remove_keys_on_update : Text
  pub remove_keys_on_update_key : Text
  pub retry_tag : Text
  pub write_operation : Text
  pub reconnect_on_error : Bool
  pub with_transporter_log : Bool
  pub content_type : Text
  pub include_index_in_url : Bool
  pub time_parse_error_tag : Text
  pub http_backend : Text
  pub prefer_oj_serializer : Bool
  pub flatten_hashes : Bool
  pub flatten_hashes_separator : Text
  pub validate_client_version : Bool
  pub unrecoverable_error_types : Text
  pub verify_es_version_at_startup : Option Bool
  pub default_elasticsearch_version : Text
  pub custom_headers : Text
  pub api_key : Option S
  pub log_es400_reason : Bool
  pub suppress_doc_wrap : Bool
  pub ignore_exceptions : Text
  pub exception_backup : Option Bool
  pub bulk_message_request_threshold : Text
  pub sniffer_class_name : Text
  pub buffer : Option Buffer
  pub enable_ilm : Bool
  pub ilm_policy_id : Text
  pub ilm_policy : Text
  pub ilm_policy_overwrite : Bool
  pub data_stream_enable : Option Bool
  pub data_stream_name : Text
  pub data_stream_template_name : Text
  pub data_stream_ilm_name : Text
  pub data_stream_ilm_policy : Text
  pub data_stream_ilm_policy_overwrite : Bool

unfoldable pub elasticsearch_fields : {S : Type 0} → ElasticsearchOutput S → List (Field S)
unfolding bool_pointer bool_value int_value plugin_tagged struct_pointer tagged text_pointer
    text_value
elasticsearch_fields x =
    tagged "Host" "host,omitempty" (text_value x.host)
    ∷ tagged "Port" "port,omitempty" (int_value x.port)
    ∷ tagged "Hosts" "hosts,omitempty" (text_value x.hosts)
    ∷ tagged "User" "user,omitempty" (text_value x.user)
    ∷ tagged "Password" "password,omitempty" (secret x.password)
    ∷ tagged "Path" "path,omitempty" (text_value x.path)
    ∷ tagged "Scheme" "scheme,omitempty" (text_value x.scheme)
    ∷ plugin_tagged "SslVerify" "ssl_verify,omitempty" "default:true" (bool_pointer x.ssl_verify)
    ∷ tagged "SslVersion" "ssl_version,omitempty" (text_value x.ssl_version)
    ∷ tagged "SslMaxVersion" "ssl_max_version,omitempty" (text_value x.ssl_max_version)
    ∷ tagged "SslMinVersion" "ssl_min_version,omitempty" (text_value x.ssl_min_version)
    ∷ tagged "SSLCACert" "ca_file,omitempty" (secret x.sslca_cert)
    ∷ tagged "SSLClientCert" "client_cert,omitempty" (secret x.ssl_client_cert)
    ∷ tagged "SSLClientCertKey" "client_key,omitempty" (secret x.ssl_client_cert_key)
    ∷ tagged "SSLClientCertKeyPass" "client_key_pass,omitempty" (secret x.ssl_client_cert_key_pass)
    ∷ tagged "LogstashFormat" "logstash_format,omitempty" (bool_value x.logstash_format)
    ∷ tagged "IncludeTimestamp" "include_timestamp,omitempty" (bool_value x.include_timestamp)
    ∷ tagged "LogstashPrefix" "logstash_prefix,omitempty" (text_value x.logstash_prefix)
    ∷ tagged "LogstashPrefixSeparator" "logstash_prefix_separator,omitempty"
        (text_value x.logstash_prefix_separator)
    ∷ tagged "LogstashDateformat" "logstash_dateformat,omitempty" (text_value x.logstash_dateformat)
    ∷ tagged "IndexName" "index_name,omitempty" (text_value x.index_name)
    ∷ tagged "TypeName" "type_name,omitempty" (text_value x.type_name)
    ∷ tagged "Pipeline" "pipeline,omitempty" (text_value x.pipeline)
    ∷ tagged "TimeKeyFormat" "time_key_format,omitempty" (text_value x.time_key_format)
    ∷ tagged "TimePrecision" "time_precision,omitempty" (text_value x.time_precision)
    ∷ tagged "TimeKey" "time_key,omitempty" (text_value x.time_key)
    ∷ plugin_tagged "UtcIndex" "utc_index,omitempty" "default:true" (bool_pointer x.utc_index)
    ∷ tagged "SuppressTypeName" "suppress_type_name,omitempty" (bool_pointer x.suppress_type_name)
    ∷ tagged "TargetIndexKey" "target_index_key,omitempty" (text_value x.target_index_key)
    ∷ tagged "TargetTypeKey" "target_type_key,omitempty" (text_value x.target_type_key)
    ∷ tagged "TemplateName" "template_name,omitempty" (text_value x.template_name)
    ∷ tagged "TemplateFile" "template_file,omitempty" (secret x.template_file)
    ∷ tagged "Templates" "templates,omitempty" (text_value x.templates)
    ∷ tagged "CustomizeTemplate" "customize_template,omitempty" (text_value x.customize_template)
    ∷ tagged "RolloverIndex" "rollover_index,omitempty" (bool_value x.rollover_index)
    ∷ tagged "IndexDatePattern" "index_date_pattern,omitempty" (text_pointer x.index_date_pattern)
    ∷ tagged "DeflectorAlias" "deflector_alias,omitempty" (text_value x.deflector_alias)
    ∷ tagged "IndexPrefix" "index_prefix,omitempty" (text_value x.index_prefix)
    ∷ tagged "ApplicationName" "application_name,omitempty" (text_pointer x.application_name)
    ∷ tagged "TemplateOverwrite" "template_overwrite,omitempty" (bool_value x.template_overwrite)
    ∷ tagged "MaxRetryPuttingTemplate" "max_retry_putting_template,omitempty"
        (text_value x.max_retry_putting_template)
    ∷ plugin_tagged "FailOnPuttingTemplateRetryExceed"
        "fail_on_putting_template_retry_exceed,omitempty" "default:true"
        (bool_pointer x.fail_on_putting_template_retry_exceed)
    ∷ tagged "MaxRetryGetEsVersion" "max_retry_get_es_version,omitempty"
        (text_value x.max_retry_get_es_version)
    ∷ tagged "RequestTimeout" "request_timeout,omitempty" (text_value x.request_timeout)
    ∷ plugin_tagged "ReloadConnections" "reload_connections,omitempty" "default:true"
        (bool_pointer x.reload_connections)
    ∷ tagged "ReloadOnFailure" "reload_on_failure,omitempty" (bool_value x.reload_on_failure)
    ∷ tagged "ReloadAfter" "reload_after,omitempty" (text_value x.reload_after)
    ∷ tagged "ResurrectAfter" "resurrect_after,omitempty" (text_value x.resurrect_after)
    ∷ tagged "IncludeTagKey" "include_tag_key,omitempty" (bool_value x.include_tag_key)
    ∷ tagged "TagKey" "tag_key,omitempty" (text_value x.tag_key)
    ∷ tagged "IdKey" "id_key,omitempty" (text_value x.id_key)
    ∷ tagged "RoutingKey" "routing_key,omitempty" (text_value x.routing_key)
    ∷ tagged "RemoveKeys" "remove_keys,omitempty" (text_value x.remove_keys)
    ∷ tagged "RemoveKeysOnUpdate" "remove_keys_on_update,omitempty"
        (text_value x.remove_keys_on_update)
    ∷ tagged "RemoveKeysOnUpdateKey" "remove_keys_on_update_key,omitempty"
        (text_value x.remove_keys_on_update_key)
    ∷ tagged "RetryTag" "retry_tag,omitempty" (text_value x.retry_tag)
    ∷ tagged "WriteOperation" "write_operation,omitempty" (text_value x.write_operation)
    ∷ tagged "ReconnectOnError" "reconnect_on_error,omitempty" (bool_value x.reconnect_on_error)
    ∷ tagged "WithTransporterLog" "with_transporter_log,omitempty"
        (bool_value x.with_transporter_log)
    ∷ tagged "ContentType" "content_type,omitempty" (text_value x.content_type)
    ∷ tagged "IncludeIndexInUrl" "include_index_in_url,omitempty"
        (bool_value x.include_index_in_url)
    ∷ tagged "TimeParseErrorTag" "time_parse_error_tag,omitempty"
        (text_value x.time_parse_error_tag)
    ∷ tagged "HttpBackend" "http_backend,omitempty" (text_value x.http_backend)
    ∷ tagged "PreferOjSerializer" "prefer_oj_serializer,omitempty"
        (bool_value x.prefer_oj_serializer)
    ∷ tagged "FlattenHashes" "flatten_hashes,omitempty" (bool_value x.flatten_hashes)
    ∷ tagged "FlattenHashesSeparator" "flatten_hashes_separator,omitempty"
        (text_value x.flatten_hashes_separator)
    ∷ tagged "ValidateClientVersion" "validate_client_version,omitempty"
        (bool_value x.validate_client_version)
    ∷ tagged "UnrecoverableErrorTypes" "unrecoverable_error_types,omitempty"
        (text_value x.unrecoverable_error_types)
    ∷ plugin_tagged "VerifyEsVersionAtStartup" "verify_es_version_at_startup,omitempty"
        "default:true" (bool_pointer x.verify_es_version_at_startup)
    ∷ tagged "DefaultElasticsearchVersion" "default_elasticsearch_version,omitempty"
        (text_value x.default_elasticsearch_version)
    ∷ tagged "CustomHeaders" "custom_headers,omitempty" (text_value x.custom_headers)
    ∷ tagged "ApiKey" "api_key,omitempty" (secret x.api_key)
    ∷ tagged "LogEs400Reason" "log_es_400_reason,omitempty" (bool_value x.log_es400_reason)
    ∷ tagged "SuppressDocWrap" "suppress_doc_wrap,omitempty" (bool_value x.suppress_doc_wrap)
    ∷ tagged "IgnoreExceptions" "ignore_exceptions,omitempty" (text_value x.ignore_exceptions)
    ∷ plugin_tagged "ExceptionBackup" "exception_backup,omitempty" "default:true"
        (bool_pointer x.exception_backup)
    ∷ tagged "BulkMessageRequestThreshold" "bulk_message_request_threshold,omitempty"
        (text_value x.bulk_message_request_threshold)
    ∷ tagged "SnifferClassName" "sniffer_class_name,omitempty" (text_value x.sniffer_class_name)
    ∷ tagged "Buffer" "buffer,omitempty" (struct_pointer x.buffer)
    ∷ tagged "EnableIlm" "enable_ilm,omitempty" (bool_value x.enable_ilm)
    ∷ tagged "IlmPolicyID" "ilm_policy_id,omitempty" (text_value x.ilm_policy_id)
    ∷ tagged "IlmPolicy" "ilm_policy,omitempty" (text_value x.ilm_policy)
    ∷ tagged "IlmPolicyOverwrite" "ilm_policy_overwrite,omitempty"
        (bool_value x.ilm_policy_overwrite)
    ∷ tagged "DataStreamEnable" "data_stream_enable,omitempty" (bool_pointer x.data_stream_enable)
    ∷ tagged "DataStreamName" "data_stream_name,omitempty" (text_value x.data_stream_name)
    ∷ tagged "DataStreamTemplateName" "data_stream_template_name,omitempty"
        (text_value x.data_stream_template_name)
    ∷ tagged "DataStreamILMName" "data_stream_ilm_name,omitempty"
        (text_value x.data_stream_ilm_name)
    ∷ tagged "DataStreamIlmPolicy" "data_stream_ilm_policy,omitempty"
        (text_value x.data_stream_ilm_policy)
    ∷ tagged "DataStreamIlmPolicyOverwrite" "data_stream_ilm_policy_overwrite,omitempty"
        (bool_value x.data_stream_ilm_policy_overwrite)
    ∷ []

-- The plugin for data streams, if they are enabled
unfoldable pub elasticsearch_type : Option Bool → Text
elasticsearch_type (some true) = codes "elasticsearch_data_stream"
elasticsearch_type _ = codes "elasticsearch"

-- `ElasticsearchOutput.ToDirective`
unfoldable pub elasticsearch_to_directive :
    {S : Type 0}
    → Json
    → Option (SecretLoader S)
    → Text
    → ElasticsearchOutput S
    → Directive ⊎ List FieldFault
elasticsearch_to_directive json loader id x =
    plugin_directive json loader (match_meta (elasticsearch_type (x.data_stream_enable)) id)
      (elasticsearch_fields x)
      ((buffer_to_directive json loader id (or_empty empty_buffer x.buffer) ∷ []))

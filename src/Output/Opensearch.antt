-- ===== src/Output/Opensearch.antt =====
-- opensearch.go of pkg/sdk/logging/model/output.
use logging_operator.Base.{Text, codes, Bool, Option, List, [], ◌∷◌, ◌⊎◌}
use logging_operator.Base.Int.{ℤ}
use logging_operator.Directive.{Directive}
use logging_operator.StringsMap.{Json, secret, Field, FieldFault, SecretLoader}
use logging_operator.StringsMap.Tagged.{
  tagged, plugin_tagged, text_value, int_value, bool_value, text_pointer, bool_pointer,
  struct_pointer,
}
use logging_operator.Output.{match_meta, or_empty, plugin_directive}
use logging_operator.Output.Buffer.{Buffer, empty_buffer, buffer_to_directive}

pub record OpenSearchOutput (S : Type 0) : Type 0 where
  pub host : Text
  pub port : ℤ
  pub user : Text
  pub password : Option S
  pub path : Text
  pub scheme : Text
  pub hosts : Text
  pub target_index_key : Text
  pub time_key_format : Text
  pub time_precision : Text
  pub include_timestamp : Bool
  pub logstash_format : Bool
  pub logstash_prefix : Text
  pub logstash_prefix_separator : Text
  pub logstash_dateformat : Text
  pub utc_index : Option Bool
  pub suppress_type_name : Option Bool
  pub index_name : Text
  pub id_key : Text
  pub write_operation : Text
  pub parent_key : Text
  pub routing_key : Text
  pub request_timeout : Text
  pub reload_connections : Option Bool
  pub reload_on_failure : Bool
  pub retry_tag : Text
  pub resurrect_after : Text
  pub time_key : Text
  pub time_key_exclude_timestamp : Bool
  pub ssl_verify : Option Bool
  pub ssl_client_cert_key : Option S
  pub ssl_client_cert : Option S
  pub ssl_client_cert_key_pass : Option S
  pub sslca_cert : Option S
  pub remove_keys_on_update : Text
  pub remove_keys_on_update_key : Text
  pub flatten_hashes : Bool
  pub flatten_hashes_separator : Text
  pub template_name : Text
  pub template_file : Option S
  pub template_overwrite : Bool
  pub customize_template : Text
  pub index_date_pattern : Option Text
  pub index_separator : Text
  pub application_name : Option Text
  pub templates : Text
  pub max_retry_putting_template : Text
  pub fail_on_putting_template_retry_exceed : Option Bool
  pub fail_on_detecting_os_version_retry_exceed : Option Bool
  pub max_retry_get_os_version : ℤ
  pub include_tag_key : Bool
  pub tag_key : Text
  pub time_parse_error_tag : Text
  pub reconnect_on_error : Bool
  pub pipeline : Text
  pub with_transporter_log : Bool
  pub emit_error_for_missing_id : Bool
  pub sniffer_class_name : Text
  pub selector_class_name : Text
  pub reload_after : Text
  pub include_index_in_url : Bool
  pub http_backend : Text
  pub http_backend_excon_nonblock : Option Bool
  pub validate_client_version : Bool
  pub prefer_oj_serializer : Bool
  pub unrecoverable_error_types : Text
  pub unrecoverable_record_types : Text
  pub emit_error_label_event : Option Bool
  pub verify_os_version_at_startup : Option Bool
  pub default_opensearch_version : ℤ
  pub log_os400_reason : Bool
  pub custom_headers : Text
  pub suppress_doc_wrap : Bool
  pub ignore_exceptions : Text
  pub exception_backup : Option Bool
  pub bulk_message_request_threshold : Text
  pub compression_level : Text
  pub truncate_caches_interval : Text
  pub use_legacy_template : Option Bool
  pub catch_transport_exception_on_retry : Option Bool
  pub target_index_affinity : Bool
  pub buffer : Option Buffer

unfoldable pub opensearch_fields : {S : Type 0} → OpenSearchOutput S → List (Field S)
unfolding bool_pointer bool_value int_value plugin_tagged struct_pointer tagged text_pointer
    text_value
opensearch_fields x =
    tagged "Host" "host,omitempty" (text_value x.host)
    ∷ tagged "Port" "port,omitempty" (int_value x.port)
    ∷ tagged "User" "user,omitempty" (text_value x.user)
    ∷ tagged "Password" "password,omitempty" (secret x.password)
    ∷ tagged "Path" "path,omitempty" (text_value x.path)
    ∷ tagged "Scheme" "scheme,omitempty" (text_value x.scheme)
    ∷ tagged "Hosts" "hosts,omitempty" (text_value x.hosts)
    ∷ tagged "TargetIndexKey" "target_index_key,omitempty" (text_value x.target_index_key)
    ∷ tagged "TimeKeyFormat" "time_key_format,omitempty" (text_value x.time_key_format)
    ∷ tagged "TimePrecision" "time_precision,omitempty" (text_value x.time_precision)
    ∷ tagged "IncludeTimestamp" "include_timestamp,omitempty" (bool_value x.include_timestamp)
    ∷ tagged "LogstashFormat" "logstash_format,omitempty" (bool_value x.logstash_format)
    ∷ tagged "LogstashPrefix" "logstash_prefix,omitempty" (text_value x.logstash_prefix)
    ∷ tagged "LogstashPrefixSeparator" "logstash_prefix_separator,omitempty"
        (text_value x.logstash_prefix_separator)
    ∷ tagged "LogstashDateformat" "logstash_dateformat,omitempty" (text_value x.logstash_dateformat)
    ∷ plugin_tagged "UtcIndex" "utc_index,omitempty" "default:true" (bool_pointer x.utc_index)
    ∷ tagged "SuppressTypeName" "suppress_type_name,omitempty" (bool_pointer x.suppress_type_name)
    ∷ tagged "IndexName" "index_name,omitempty" (text_value x.index_name)
    ∷ tagged "IdKey" "id_key,omitempty" (text_value x.id_key)
    ∷ tagged "WriteOperation" "write_operation,omitempty" (text_value x.write_operation)
    ∷ tagged "ParentKey" "parent_key,omitempty" (text_value x.parent_key)
    ∷ tagged "RoutingKey" "routing_key,omitempty" (text_value x.routing_key)
    ∷ tagged "RequestTimeout" "request_timeout,omitempty" (text_value x.request_timeout)
    ∷ plugin_tagged "ReloadConnections" "reload_connections,omitempty" "default:true"
        (bool_pointer x.reload_connections)
    ∷ tagged "ReloadOnFailure" "reload_on_failure,omitempty" (bool_value x.reload_on_failure)
    ∷ tagged "RetryTag" "retry_tag,omitempty" (text_value x.retry_tag)
    ∷ tagged "ResurrectAfter" "resurrect_after,omitempty" (text_value x.resurrect_after)
    ∷ tagged "TimeKey" "time_key,omitempty" (text_value x.time_key)
    ∷ tagged "TimeKeyExcludeTimestamp" "time_key_exclude_timestamp,omitempty"
        (bool_value x.time_key_exclude_timestamp)
    ∷ plugin_tagged "SslVerify" "ssl_verify,omitempty" "default:true" (bool_pointer x.ssl_verify)
    ∷ tagged "SSLClientCertKey" "client_key,omitempty" (secret x.ssl_client_cert_key)
    ∷ tagged "SSLClientCert" "client_cert,omitempty" (secret x.ssl_client_cert)
    ∷ tagged "SSLClientCertKeyPass" "client_key_pass,omitempty" (secret x.ssl_client_cert_key_pass)
    ∷ tagged "SSLCACert" "ca_file,omitempty" (secret x.sslca_cert)
    ∷ tagged "RemoveKeysOnUpdate" "remove_keys_on_update,omitempty"
        (text_value x.remove_keys_on_update)
    ∷ tagged "RemoveKeysOnUpdateKey" "remove_keys_on_update_key,omitempty"
        (text_value x.remove_keys_on_update_key)
    ∷ tagged "FlattenHashes" "flatten_hashes,omitempty" (bool_value x.flatten_hashes)
    ∷ tagged "FlattenHashesSeparator" "flatten_hashes_separator,omitempty"
        (text_value x.flatten_hashes_separator)
    ∷ tagged "TemplateName" "template_name,omitempty" (text_value x.template_name)
    ∷ tagged "TemplateFile" "template_file,omitempty" (secret x.template_file)
    ∷ tagged "TemplateOverwrite" "template_overwrite,omitempty" (bool_value x.template_overwrite)
    ∷ tagged "CustomizeTemplate" "customize_template,omitempty" (text_value x.customize_template)
    ∷ tagged "IndexDatePattern" "index_date_pattern,omitempty" (text_pointer x.index_date_pattern)
    ∷ tagged "IndexSeparator" "index_separator,omitempty" (text_value x.index_separator)
    ∷ tagged "ApplicationName" "application_name,omitempty" (text_pointer x.application_name)
    ∷ tagged "Templates" "templates,omitempty" (text_value x.templates)
    ∷ tagged "MaxRetryPuttingTemplate" "max_retry_putting_template,omitempty"
        (text_value x.max_retry_putting_template)
    ∷ plugin_tagged "FailOnPuttingTemplateRetryExceed"
        "fail_on_putting_template_retry_exceed,omitempty" "default:true"
        (bool_pointer x.fail_on_putting_template_retry_exceed)
    ∷ plugin_tagged "FailOnDetectingOsVersionRetryExceed"
        "fail_on_detecting_os_version_retry_exceed,omitempty" "default:true"
        (bool_pointer x.fail_on_detecting_os_version_retry_exceed)
    ∷ tagged "MaxRetryGetOsVersion" "max_retry_get_os_version,omitempty"
        (int_value x.max_retry_get_os_version)
    ∷ tagged "IncludeTagKey" "include_tag_key,omitempty" (bool_value x.include_tag_key)
    ∷ tagged "TagKey" "tag_key,omitempty" (text_value x.tag_key)
    ∷ tagged "TimeParseErrorTag" "time_parse_error_tag,omitempty"
        (text_value x.time_parse_error_tag)
    ∷ tagged "ReconnectOnError" "reconnect_on_error,omitempty" (bool_value x.reconnect_on_error)
    ∷ tagged "Pipeline" "pipeline,omitempty" (text_value x.pipeline)
    ∷ tagged "WithTransporterLog" "with_transporter_log,omitempty"
        (bool_value x.with_transporter_log)
    ∷ tagged "EmitErrorForMissingID" "emit_error_for_missing_id,omitempty"
        (bool_value x.emit_error_for_missing_id)
    ∷ tagged "SnifferClassName" "sniffer_class_name,omitempty" (text_value x.sniffer_class_name)
    ∷ tagged "SelectorClassName" "selector_class_name,omitempty" (text_value x.selector_class_name)
    ∷ tagged "ReloadAfter" "reload_after,omitempty" (text_value x.reload_after)
    ∷ tagged "IncludeIndexInUrl" "include_index_in_url,omitempty"
        (bool_value x.include_index_in_url)
    ∷ tagged "HttpBackend" "http_backend,omitempty" (text_value x.http_backend)
    ∷ plugin_tagged "HttpBackendExconNonblock" "http_backend_excon_nonblock,omitempty"
        "default:true" (bool_pointer x.http_backend_excon_nonblock)
    ∷ tagged "ValidateClientVersion" "validate_client_version,omitempty"
        (bool_value x.validate_client_version)
    ∷ tagged "PreferOjSerializer" "prefer_oj_serializer,omitempty"
        (bool_value x.prefer_oj_serializer)
    ∷ tagged "UnrecoverableErrorTypes" "unrecoverable_error_types,omitempty"
        (text_value x.unrecoverable_error_types)
    ∷ tagged "UnrecoverableRecordTypes" "unrecoverable_record_types,omitempty"
        (text_value x.unrecoverable_record_types)
    ∷ plugin_tagged "EmitErrorLabelEvent" "emit_error_label_event,omitempty" "default:true"
        (bool_pointer x.emit_error_label_event)
    ∷ plugin_tagged "VerifyOsVersionAtStartup" "verify_os_version_at_startup,omitempty"
        "default:true" (bool_pointer x.verify_os_version_at_startup)
    ∷ tagged "DefaultOpensearchVersion" "default_opensearch_version,omitempty"
        (int_value x.default_opensearch_version)
    ∷ tagged "LogOs400Reason" "log_os_400_reason,omitempty" (bool_value x.log_os400_reason)
    ∷ tagged "CustomHeaders" "custom_headers,omitempty" (text_value x.custom_headers)
    ∷ tagged "SuppressDocWrap" "suppress_doc_wrap,omitempty" (bool_value x.suppress_doc_wrap)
    ∷ tagged "IgnoreExceptions" "ignore_exceptions,omitempty" (text_value x.ignore_exceptions)
    ∷ plugin_tagged "ExceptionBackup" "exception_backup,omitempty" "default:true"
        (bool_pointer x.exception_backup)
    ∷ tagged "BulkMessageRequestThreshold" "bulk_message_request_threshold,omitempty"
        (text_value x.bulk_message_request_threshold)
    ∷ tagged "CompressionLevel" "compression_level,omitempty" (text_value x.compression_level)
    ∷ tagged "TruncateCachesInterval" "truncate_caches_interval,omitempty"
        (text_value x.truncate_caches_interval)
    ∷ plugin_tagged "UseLegacyTemplate" "use_legacy_template,omitempty" "default:true"
        (bool_pointer x.use_legacy_template)
    ∷ plugin_tagged "CatchTransportExceptionOnRetry" "catch_transport_exception_on_retry,omitempty"
        "default:true" (bool_pointer x.catch_transport_exception_on_retry)
    ∷ tagged "TargetIndexAffinity" "target_index_affinity,omitempty"
        (bool_value x.target_index_affinity)
    ∷ tagged "Buffer" "buffer,omitempty" (struct_pointer x.buffer)
    ∷ []

-- `OpenSearchOutput.ToDirective`
unfoldable pub opensearch_to_directive :
    {S : Type 0}
    → Json
    → Option (SecretLoader S)
    → Text
    → OpenSearchOutput S
    → Directive ⊎ List FieldFault
opensearch_to_directive json loader id x =
    plugin_directive json loader (match_meta (codes "opensearch") id) (opensearch_fields x)
      ((buffer_to_directive json loader id (or_empty empty_buffer x.buffer) ∷ []))

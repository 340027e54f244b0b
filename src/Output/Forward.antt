-- ===== src/Output/Forward.antt =====
-- forward.go of pkg/sdk/logging/model/output.
use logging_operator.Base.{Text, codes, Bool, Option, List, [], ◌∷◌, ◌++◌, ◌⊎◌}
use logging_operator.Base.Int.{ℤ}
use logging_operator.Directive.{meta_of, Directive}
use logging_operator.StringsMap.{Json, secret, Field, FieldFault, SecretLoader}
use logging_operator.StringsMap.Tagged.{
  tagged, text_value, int_value, bool_value, struct_pointer, struct_slice,
}
use logging_operator.StringsMap.Fields.{new_flat_directive}
use logging_operator.Output.{one_each, match_meta, optional, or_empty, plugin_directive}
use logging_operator.Output.Buffer.{Buffer, empty_buffer, buffer_to_directive}
use logging_operator.Input.{Security, security_directive}

pub record FluentdServer (S : Type 0) : Type 0 where
  pub host : Text
  pub name : Text
  pub port : ℤ
  pub shared_key : Option S
  pub username : Option S
  pub password : Option S
  pub standby : Bool
  pub weight : ℤ

unfoldable pub fluentd_server_fields : {S : Type 0} → FluentdServer S → List (Field S)
unfolding bool_value int_value tagged text_value
fluentd_server_fields x =
    tagged "Host" "host" (text_value x.host)
    ∷ tagged "Name" "name,omitempty" (text_value x.name)
    ∷ tagged "Port" "port,omitempty" (int_value x.port)
    ∷ tagged "SharedKey" "shared_key,omitempty" (secret x.shared_key)
    ∷ tagged "Username" "username,omitempty" (secret x.username)
    ∷ tagged "Password" "password,omitempty" (secret x.password)
    ∷ tagged "Standby" "standby,omitempty" (bool_value x.standby)
    ∷ tagged "Weight" "weight,omitempty" (int_value x.weight)
    ∷ []

unfoldable pub fluentd_server_to_directive :
    {S : Type 0} → Json → Option (SecretLoader S) → FluentdServer S → Directive ⊎ List FieldFault
unfolding fluentd_server_fields new_flat_directive
fluentd_server_to_directive json loader x =
    new_flat_directive json (meta_of (codes "server")) (fluentd_server_fields x) loader

pub record ForwardOutput (S : Type 0) : Type 0 where
  pub fluentd_servers : Option (List (FluentdServer S))
  pub transport : Text
  pub require_ack_response : Bool
  pub ack_response_timeout : ℤ
  pub send_timeout : ℤ
  pub connect_timeout : ℤ
  pub recover_wait : ℤ
  pub heartbeat_type : Text
  pub heartbeat_interval : ℤ
  pub phi_failure_detector : Bool
  pub phi_threshold : ℤ
  pub hard_timeout : ℤ
  pub expire_dns_cache : ℤ
  pub dns_round_robin : Bool
  pub ignore_network_errors_at_startup : Bool
  pub tls_version : Text
  pub tls_ciphers : Text
  pub tls_insecure_mode : Bool
  pub tls_allow_self_signed_cert : Bool
  pub tls_verify_hostname : Bool
  pub tls_cert_path : Option S
  pub tls_client_cert_path : Option S
  pub tls_client_private_key_path : Option S
  pub tls_client_private_key_passphrase : Option S
  pub tls_cert_thumbprint : Text
  pub tls_cert_logical_store_name : Text
  pub tls_cert_use_enterprise_store : Bool
  pub keepalive : Bool
  pub keepalive_timeout : ℤ
  pub security : Option Security
  pub verify_connection_at_startup : Bool
  pub buffer : Option Buffer

unfoldable pub forward_output_fields : {S : Type 0} → ForwardOutput S → List (Field S)
unfolding bool_value int_value struct_pointer struct_slice tagged text_value
forward_output_fields x =
    tagged "FluentdServers" "servers" (struct_slice x.fluentd_servers)
    ∷ tagged "Transport" "transport,omitempty" (text_value x.transport)
    ∷ tagged "RequireAckResponse" "require_ack_response,omitempty"
        (bool_value x.require_ack_response)
    ∷ tagged "AckResponseTimeout" "ack_response_timeout,omitempty"
        (int_value x.ack_response_timeout)
    ∷ tagged "SendTimeout" "send_timeout,omitempty" (int_value x.send_timeout)
    ∷ tagged "ConnectTimeout" "connect_timeout,omitempty" (int_value x.connect_timeout)
    ∷ tagged "RecoverWait" "recover_wait,omitempty" (int_value x.recover_wait)
    ∷ tagged "HeartbeatType" "heartbeat_type,omitempty" (text_value x.heartbeat_type)
    ∷ tagged "HeartbeatInterval" "heartbeat_interval,omitempty" (int_value x.heartbeat_interval)
    ∷ tagged "PhiFailureDetector" "phi_failure_detector,omitempty"
        (bool_value x.phi_failure_detector)
    ∷ tagged "PhiThreshold" "phi_threshold,omitempty" (int_value x.phi_threshold)
    ∷ tagged "HardTimeout" "hard_timeout,omitempty" (int_value x.hard_timeout)
    ∷ tagged "ExpireDnsCache" "expire_dns_cache,omitempty" (int_value x.expire_dns_cache)
    ∷ tagged "DnsRoundRobin" "dns_round_robin,omitempty" (bool_value x.dns_round_robin)
    ∷ tagged "IgnoreNetworkErrorsAtStartup" "ignore_network_errors_at_startup,omitempty"
        (bool_value x.ignore_network_errors_at_startup)
    ∷ tagged "TlsVersion" "tls_version,omitempty" (text_value x.tls_version)
    ∷ tagged "TlsCiphers" "tls_ciphers,omitempty" (text_value x.tls_ciphers)
    ∷ tagged "TlsInsecureMode" "tls_insecure_mode,omitempty" (bool_value x.tls_insecure_mode)
    ∷ tagged "TlsAllowSelfSignedCert" "tls_allow_self_signed_cert,omitempty"
        (bool_value x.tls_allow_self_signed_cert)
    ∷ tagged "TlsVerifyHostname" "tls_verify_hostname,omitempty" (bool_value x.tls_verify_hostname)
    ∷ tagged "TlsCertPath" "tls_cert_path,omitempty" (secret x.tls_cert_path)
    ∷ tagged "TlsClientCertPath" "tls_client_cert_path,omitempty" (secret x.tls_client_cert_path)
    ∷ tagged "TlsClientPrivateKeyPath" "tls_client_private_key_path,omitempty"
        (secret x.tls_client_private_key_path)
    ∷ tagged "TlsClientPrivateKeyPassphrase" "tls_client_private_key_passphrase,omitempty"
        (secret x.tls_client_private_key_passphrase)
    ∷ tagged "TlsCertThumbprint" "tls_cert_thumbprint,omitempty" (text_value x.tls_cert_thumbprint)
    ∷ tagged "TlsCertLogicalStoreName" "tls_cert_logical_store_name,omitempty"
        (text_value x.tls_cert_logical_store_name)
    ∷ tagged "TlsCertUseEnterpriseStore" "tls_cert_use_enterprise_store,omitempty"
        (bool_value x.tls_cert_use_enterprise_store)
    ∷ tagged "Keepalive" "keepalive,omitempty" (bool_value x.keepalive)
    ∷ tagged "KeepaliveTimeout" "keepalive_timeout,omitempty" (int_value x.keepalive_timeout)
    ∷ tagged "Security" "security,omitempty" (struct_pointer x.security)
    ∷ tagged "VerifyConnectionAtStartup" "verify_connection_at_startup,omitempty"
        (bool_value x.verify_connection_at_startup)
    ∷ tagged "Buffer" "buffer,omitempty" (struct_pointer x.buffer)
    ∷ []

-- `ForwardOutput.ToDirective`
unfoldable pub forward_output_to_directive :
    {S : Type 0}
    → Json
    → Option (SecretLoader S)
    → Text
    → ForwardOutput S
    → Directive ⊎ List FieldFault
forward_output_to_directive json loader id x =
    plugin_directive json loader (match_meta (codes "forward") id) (forward_output_fields x) (
      (buffer_to_directive json loader id (or_empty empty_buffer x.buffer) ∷ [])
      ++ (optional (security_directive json loader) x.security)
      ++ (one_each (fluentd_server_to_directive json loader) x.fluentd_servers))

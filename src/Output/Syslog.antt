-- ===== src/Output/Syslog.antt =====
-- syslog.go of pkg/sdk/logging/model/output.
use logging_operator.Base.{Text, codes, Bool, Option, List, [], ◌∷◌, ◌++◌, ◌⊎◌}
use logging_operator.Base.Int.{ℤ}
use logging_operator.Directive.{Directive}
use logging_operator.StringsMap.{Json, secret, Field, FieldFault, SecretLoader}
use logging_operator.StringsMap.Tagged.{tagged, text_value, int_value, bool_pointer, struct_pointer}
use logging_operator.Output.{match_meta, or_empty, plugin_directive}
use logging_operator.Output.Buffer.{Buffer, empty_buffer, buffer_to_directive}
use logging_operator.Output.Format.{
  FormatRfc5424, format_rfc5424_to_directive, empty_format_rfc5424,
}

pub record SyslogOutputConfig (S : Type 0) : Type 0 where
  pub host : Text
  pub port : ℤ
  pub transport : Text
  pub insecure : Option Bool
  pub verify_fqdn : Option Bool
  pub enable_system_cert_store : Option Bool
  pub trusted_ca_path : Option S
  pub client_cert_path : Option S
  pub private_key_path : Option S
  pub private_key_passphrase : Option S
  pub allow_self_signed_cert : Option Bool
  pub fqdn : Text
  pub version : Text
  pub format : Option FormatRfc5424
  pub buffer : Option Buffer

unfoldable pub syslog_fields : {S : Type 0} → SyslogOutputConfig S → List (Field S)
unfolding bool_pointer int_value struct_pointer tagged text_value
syslog_fields x =
    tagged "Host" "host" (text_value x.host)
    ∷ tagged "Port" "port,omitempty" (int_value x.port)
    ∷ tagged "Transport" "transport,omitempty" (text_value x.transport)
    ∷ tagged "Insecure" "insecure,omitempty" (bool_pointer x.insecure)
    ∷ tagged "VerifyFqdn" "verify_fqdn,omitempty" (bool_pointer x.verify_fqdn)
    ∷ tagged "EnableSystemCertStore" "enable_system_cert_store,omitempty"
        (bool_pointer x.enable_system_cert_store)
    ∷ tagged "TrustedCaPath" "trusted_ca_path,omitempty" (secret x.trusted_ca_path)
    ∷ tagged "ClientCertPath" "client_cert_path,omitempty" (secret x.client_cert_path)
    ∷ tagged "PrivateKeyPath" "private_key_path,omitempty" (secret x.private_key_path)
    ∷ tagged "PrivateKeyPassphrase" "private_key_passphrase,omitempty"
        (secret x.private_key_passphrase)
    ∷ tagged "AllowSelfSignedCert" "allow_self_signed_cert,omitempty"
        (bool_pointer x.allow_self_signed_cert)
    ∷ tagged "Fqdn" "fqdn,omitempty" (text_value x.fqdn)
    ∷ tagged "Version" "version,omitempty" (text_value x.version)
    ∷ tagged "Format" "format,omitempty" (struct_pointer x.format)
    ∷ tagged "Buffer" "buffer,omitempty" (struct_pointer x.buffer)
    ∷ []

-- `SyslogOutputConfig.ToDirective`
unfoldable pub syslog_to_directive :
    {S : Type 0}
    → Json
    → Option (SecretLoader S)
    → Text
    → SyslogOutputConfig S
    → Directive ⊎ List FieldFault
syslog_to_directive json loader id x =
    plugin_directive json loader (match_meta (codes "syslog_rfc5424") id) (syslog_fields x) (
      (buffer_to_directive json loader id (or_empty empty_buffer x.buffer) ∷ [])
      ++ (format_rfc5424_to_directive json loader (or_empty empty_format_rfc5424 x.format) ∷ []))

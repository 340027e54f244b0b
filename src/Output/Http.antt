-- ===== src/Output/Http.antt =====
-- http.go of pkg/sdk/logging/model/output.
use logging_operator.Base.{Text, codes, Bool, Option, List, [], ◌∷◌, ◌++◌, ◌⊎◌}
use logging_operator.Base.Int.{ℤ}
use logging_operator.Base.Assoc.{Assoc}
use logging_operator.Directive.{meta_of, Directive}
use logging_operator.StringsMap.{Json, ints, string_map, secret, Field, FieldFault, SecretLoader}
use logging_operator.StringsMap.Tagged.{
  tagged, text_value, int_value, bool_value, bool_pointer, struct_pointer,
}
use logging_operator.StringsMap.Fields.{new_flat_directive}
use logging_operator.Output.{match_meta, optional, or_empty, plugin_directive}
use logging_operator.Output.Buffer.{Buffer, empty_buffer, buffer_to_directive}
use logging_operator.Output.Format.{Format, format_to_directive}

pub record HttpAuth (S : Type 0) : Type 0 where
  pub username : Option S
  pub password : Option S

unfoldable pub http_auth_fields : {S : Type 0} → HttpAuth S → List (Field S)
unfolding tagged
http_auth_fields x =
    tagged "Username" "username" (secret x.username)
    ∷ tagged "Password" "password" (secret x.password)
    ∷ []

unfoldable pub http_auth_to_directive :
    {S : Type 0} → Json → Option (SecretLoader S) → HttpAuth S → Directive ⊎ List FieldFault
unfolding http_auth_fields new_flat_directive
http_auth_to_directive json loader x =
    new_flat_directive json (meta_of (codes "auth")) (http_auth_fields x) loader

pub record HttpOutputConfig (S : Type 0) : Type 0 where
  pub endpoint : Text
  pub http_method : Text
  pub proxy : Text
  pub content_type : Text
  pub json_array : Bool
  pub format : Option Format
  pub headers : Option (Assoc Text)
  pub open_timeout : ℤ
  pub read_timeout : ℤ
  pub ssl_timeout : ℤ
  pub tls_version : Text
  pub tls_ciphers : Text
  pub tls_ca_cert_path : Option S
  pub tls_client_cert_path : Option S
  pub tls_private_key_path : Option S
  pub tls_private_key_passphrase : Option S
  pub tls_verify_mode : Text
  pub error_response_as_unrecoverable : Option Bool
  pub retryable_response_codes : Option (List ℤ)
  pub auth : Option (HttpAuth S)
  pub buffer : Option Buffer

unfoldable pub http_fields : {S : Type 0} → HttpOutputConfig S → List (Field S)
unfolding bool_pointer bool_value int_value struct_pointer tagged text_value
http_fields x =
    tagged "Endpoint" "endpoint" (text_value x.endpoint)
    ∷ tagged "HTTPMethod" "http_method,omitempty" (text_value x.http_method)
    ∷ tagged "Proxy" "proxy,omitempty" (text_value x.proxy)
    ∷ tagged "ContentType" "content_type,omitempty" (text_value x.content_type)
    ∷ tagged "JsonArray" "json_array,omitempty" (bool_value x.json_array)
    ∷ tagged "Format" "format,omitempty" (struct_pointer x.format)
    ∷ tagged "Headers" "headers,omitempty" (string_map x.headers)
    ∷ tagged "OpenTimeout" "open_timeout,omitempty" (int_value x.open_timeout)
    ∷ tagged "ReadTimeout" "read_timeout,omitempty" (int_value x.read_timeout)
    ∷ tagged "SSLTimeout" "ssl_timeout,omitempty" (int_value x.ssl_timeout)
    ∷ tagged "TlsVersion" "tls_version,omitempty" (text_value x.tls_version)
    ∷ tagged "TlsCiphers" "tls_ciphers,omitempty" (text_value x.tls_ciphers)
    ∷ tagged "TlsCACertPath" "tls_ca_cert_path,omitempty" (secret x.tls_ca_cert_path)
    ∷ tagged "TlsClientCertPath" "tls_client_cert_path,omitempty" (secret x.tls_client_cert_path)
    ∷ tagged "TlsPrivateKeyPath" "tls_private_key_path,omitempty" (secret x.tls_private_key_path)
    ∷ tagged "TlsPrivateKeyPassphrase" "tls_private_key_passphrase,omitempty"
        (secret x.tls_private_key_passphrase)
    ∷ tagged "TlsVerifyMode" "tls_verify_mode,omitempty" (text_value x.tls_verify_mode)
    ∷ tagged "ErrorResponseAsUnrecoverable" "error_response_as_unrecoverable,omitempty"
        (bool_pointer x.error_response_as_unrecoverable)
    ∷ tagged "RetryableResponseCodes" "retryable_response_codes,omitempty"
        (ints x.retryable_response_codes)
    ∷ tagged "Auth" "auth,omitempty" (struct_pointer x.auth)
    ∷ tagged "Buffer" "buffer,omitempty" (struct_pointer x.buffer)
    ∷ []

-- `HTTPOutputConfig.ToDirective`
unfoldable pub http_to_directive :
    {S : Type 0}
    → Json
    → Option (SecretLoader S)
    → Text
    → HttpOutputConfig S
    → Directive ⊎ List FieldFault
http_to_directive json loader id x =
    plugin_directive json loader (match_meta (codes "http") id) (http_fields x) (
      (buffer_to_directive json loader id (or_empty empty_buffer x.buffer) ∷ [])
      ++ (optional (format_to_directive json loader) x.format)
      ++ (optional (http_auth_to_directive json loader) x.auth))

-- ===== src/Input.antt =====
-- pkg/sdk/logging/model/input/forward.go with pkg/sdk/logging/model/common: the root input. Each
-- struct is turned into its fields, as reflection shows them.
use logging_operator.Base.{
  Text, codes, Bool, Option, none, some, List, [], ◌∷◌, ◌++◌, ◌⊎◌, inl, inr,
}
use logging_operator.Base.Int.{ℤ}
use logging_operator.Base.Assoc.{Assoc}
use logging_operator.Directive.{PluginMeta, meta_of, Directive, generic, Directives, nil, cons}
use logging_operator.StringsMap.{Json, Field, FieldFault, SecretLoader, new_struct_to_string_mapper}
use logging_operator.StringsMap.Tagged.{
  tagged, plugin_tagged, text_value, int_value, bool_value, bool_pointer, struct_pointer,
}
use logging_operator.StringsMap.Fields.{strings_map, new_flat_directive}

pub record Transport : Type 0 where
  pub protocol : Text
  pub version : Text
  pub ciphers : Text
  pub insecure : Bool
  pub ca_path : Text
  pub cert_path : Text
  pub private_key_path : Text
  pub private_key_passphrase : Text
  pub client_cert_auth : Bool
  pub ca_cert_path : Text
  pub ca_private_key_path : Text
  pub ca_private_key_passphrase : Text

pub record Security : Type 0 where
  pub self_hostname : Text
  pub shared_key : Text
  pub user_auth : Bool
  pub allow_anonymous_source : Bool

pub record ForwardInputConfig : Type 0 where
  pub port : Text
  pub bind : Text
  pub tag : Text
  pub add_tag_prefix : Text
  pub linger_timeout : ℤ
  pub resolve_hostname : Option Bool
  pub deny_keepalive : Option Bool
  pub send_keepalive_packet : Option Bool
  pub chunk_size_limit : Text
  pub chunk_size_warn_limit : Text
  pub skip_invalid_event : Option Bool
  pub source_address_key : Text
  pub source_hostname_key : Text
  pub transport : Option Transport
  pub security : Option Security

unfoldable pub new_forward_input_config : ForwardInputConfig
new_forward_input_config = record {
  port = [];
  bind = [];
  tag = [];
  add_tag_prefix = [];
  linger_timeout = ℤ.pos 0;
  resolve_hostname = none;
  deny_keepalive = none;
  send_keepalive_packet = none;
  chunk_size_limit = [];
  chunk_size_warn_limit = [];
  skip_invalid_event = none;
  source_address_key = [];
  source_hostname_key = [];
  transport = none;
  security = none;
}

transport_fields : {S : Type 0} → Transport → List (Field S)
unfolding tagged text_value bool_value
transport_fields t =
    tagged "Protocol" "protocol,omitempty" (text_value t.protocol)
    ∷ tagged "Version" "version,omitempty" (text_value t.version)
    ∷ tagged "Ciphers" "ciphers,omitempty" (text_value t.ciphers)
    ∷ tagged "Insecure" "insecure,omitempty" (bool_value t.insecure)
    ∷ tagged "CaPath" "ca_path,omitempty" (text_value t.ca_path)
    ∷ tagged "CertPath" "cert_path,omitempty" (text_value t.cert_path)
    ∷ tagged "PrivateKeyPath" "private_key_path,omitempty" (text_value t.private_key_path)
    ∷ tagged "PrivateKeyPassphrase" "private_key_passphrase,omitempty"
        (text_value t.private_key_passphrase)
    ∷ tagged "ClientCertAuth" "client_cert_auth,omitempty" (bool_value t.client_cert_auth)
    ∷ tagged "CaCertPath" "ca_cert_path,omitempty" (text_value t.ca_cert_path)
    ∷ tagged "CaPrivateKeyPath" "ca_private_key_path,omitempty" (text_value t.ca_private_key_path)
    ∷ tagged "CaPrivateKeyPassphrase" "ca_private_key_passphrase,omitempty"
        (text_value t.ca_private_key_passphrase)
    ∷ []

security_fields : {S : Type 0} → Security → List (Field S)
unfolding tagged text_value bool_value
security_fields s =
    tagged "SelfHostname" "self_hostname" (text_value s.self_hostname)
    ∷ tagged "SharedKey" "shared_key" (text_value s.shared_key)
    ∷ tagged "UserAuth" "user_auth,omitempty" (bool_value s.user_auth)
    ∷ tagged "AllowAnonymousSource" "allow_anonymous_source,omitempty"
        (bool_value s.allow_anonymous_source)
    ∷ []

forward_fields : {S : Type 0} → ForwardInputConfig → List (Field S)
unfolding tagged plugin_tagged text_value int_value bool_pointer struct_pointer
forward_fields f =
    plugin_tagged "Port" "port,omitempty" "default:24240" (text_value f.port)
    ∷ plugin_tagged "Bind" "bind,omitempty" "default:0.0.0.0" (text_value f.bind)
    ∷ tagged "Tag" "tag,omitempty" (text_value f.tag)
    ∷ tagged "AddTagPrefix" "add_tag_prefix,omitempty" (text_value f.add_tag_prefix)
    ∷ tagged "LingerTimeout" "linger_timeout,omitempty" (int_value f.linger_timeout)
    ∷ tagged "ResolveHostname" "resolve_hostname,omitempty" (bool_pointer f.resolve_hostname)
    ∷ tagged "DenyKeepalive" "deny_keepalive,omitempty" (bool_pointer f.deny_keepalive)
    ∷ tagged "SendKeepalivePacket" "send_keepalive_packet,omitempty"
        (bool_pointer f.send_keepalive_packet)
    ∷ tagged "ChunkSizeLimit" "chunk_size_limit,omitempty" (text_value f.chunk_size_limit)
    ∷ tagged "ChunkSizeWarnLimit" "chunk_size_warn_limit,omitempty"
        (text_value f.chunk_size_warn_limit)
    ∷ tagged "SkipInvalidEvent" "skip_invalid_event,omitempty" (bool_pointer f.skip_invalid_event)
    ∷ tagged "SourceAddressKey" "source_address_key,omitempty" (text_value f.source_address_key)
    ∷ tagged "SourceHostnameKey" "sourceHostnameKey,omitempty" (text_value f.source_hostname_key)
    ∷ tagged "Transport" "transport,omitempty" (struct_pointer f.transport)
    ∷ tagged "Security" "security,omitempty" (struct_pointer f.security)
    ∷ []

-- A section of the input, if it is configured; its errors otherwise.
section_of :
    {A : Type 0} → (A → Directive ⊎ List FieldFault) → Option A → Directives ⊎ List FieldFault
section_of make none = inl nil
section_of make (some a) = elim (make a) [ inl d ↦ inl (cons d nil) | inr errs ↦ inr errs ]

transport_directive :
    {S : Type 0} → Json → Option (SecretLoader S) → Transport → Directive ⊎ List FieldFault
unfolding transport_fields new_flat_directive
transport_directive json loader t =
    new_flat_directive json (record (meta_of (codes "transport")) { tag = codes "tls" })
      (transport_fields t) loader

unfoldable pub security_directive :
    {S : Type 0} → Json → Option (SecretLoader S) → Security → Directive ⊎ List FieldFault
unfolding security_fields new_flat_directive
security_directive json loader s =
    new_flat_directive json (meta_of (codes "security")) (security_fields s) loader

append : Directives → Directives → Directives
append nil ss = ss
append (cons t ts) ss = cons t (append ts ss)

forward_with :
    PluginMeta
    → Assoc Text × List FieldFault
    → Directives ⊎ List FieldFault
    → Directives ⊎ List FieldFault
    → Directive ⊎ List FieldFault
forward_with meta (params, (e ∷ errs)) transport security = inr (e ∷ errs)
forward_with meta (params, []) (inr errs) security = inr errs
forward_with meta (params, []) (inl ts) (inr errs) = inr errs
forward_with meta (params, []) (inl ts) (inl ss) = inl (generic meta params (append ts ss))

-- `ForwardInputConfig.ToDirective`
unfoldable pub forward_to_directive :
    {S : Type 0}
    → Json
    → ForwardInputConfig
    → Option (SecretLoader S)
    → Text
    → Directive ⊎ List FieldFault
unfolding section_of append forward_with forward_fields strings_map transport_directive
    security_directive new_struct_to_string_mapper
forward_to_directive json f loader id =
    forward_with
      (record (meta_of (codes "source")) { type = codes "forward"; id = id ++ codes "_forward" })
      (strings_map (new_struct_to_string_mapper loader) json (forward_fields f))
      (section_of (transport_directive json loader) f.transport)
      (section_of (security_directive json loader) f.security)

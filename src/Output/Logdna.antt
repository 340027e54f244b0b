-- ===== src/Output/Logdna.antt =====
-- logdna.go of pkg/sdk/logging/model/output.
use logging_operator.Base.{Text, codes, Option, List, [], ◌∷◌, ◌++◌, ◌⊎◌}
use logging_operator.Directive.{Directive}
use logging_operator.StringsMap.{Json, Field, FieldFault, SecretLoader}
use logging_operator.StringsMap.Tagged.{tagged, text_value, struct_pointer}
use logging_operator.Output.{match_meta, or_empty, plugin_directive}
use logging_operator.Output.Buffer.{Buffer, empty_buffer, buffer_to_directive}

pub record LogDnaOutput : Type 0 where
  pub api_key : Text
  pub host_name : Text
  pub app : Text
  pub tags : Text
  pub request_timeout : Text
  pub ingester_domain : Text
  pub ingester_endpoint : Text
  pub buffer : Option Buffer

unfoldable pub logdna_fields : {S : Type 0} → LogDnaOutput → List (Field S)
unfolding struct_pointer tagged text_value
logdna_fields x =
    tagged "ApiKey" "api_key" (text_value x.api_key)
    ∷ tagged "HostName" "hostname" (text_value x.host_name)
    ∷ tagged "App" "app,omitempty" (text_value x.app)
    ∷ tagged "Tags" "tags,omitempty" (text_value x.tags)
    ∷ tagged "RequestTimeout" "request_timeout,omitempty" (text_value x.request_timeout)
    ∷ tagged "IngesterDomain" "ingester_domain,omitempty" (text_value x.ingester_domain)
    ∷ tagged "IngesterEndpoint" "ingester_endpoint,omitempty" (text_value x.ingester_endpoint)
    ∷ tagged "Buffer" "buffer,omitempty" (struct_pointer x.buffer)
    ∷ []

-- `LogDNAOutput.ToDirective`
unfoldable pub logdna_to_directive :
    {S : Type 0}
    → Json
    → Option (SecretLoader S)
    → Text
    → LogDnaOutput
    → Directive ⊎ List FieldFault
logdna_to_directive json loader id x =
    plugin_directive json loader (match_meta (codes "logdna") (id ++ codes "_logdna"))
      (logdna_fields x)
      ((buffer_to_directive json loader (id ++ codes "_logdna") (or_empty empty_buffer x.buffer)
        ∷ []))

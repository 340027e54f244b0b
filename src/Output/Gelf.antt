-- ===== src/Output/Gelf.antt =====
-- gelf.go of pkg/sdk/logging/model/output.
use logging_operator.Base.{Text, codes, Bool, Option, List, [], ◌∷◌, ◌⊎◌}
use logging_operator.Base.Int.{ℤ}
use logging_operator.Base.Assoc.{Assoc}
use logging_operator.Directive.{Directive}
use logging_operator.StringsMap.{Json, string_map, Field, FieldFault, SecretLoader}
use logging_operator.StringsMap.Tagged.{tagged, text_value, int_value, bool_pointer}
use logging_operator.Output.{match_meta, plugin_directive}

pub record GelfOutputConfig : Type 0 where
  pub host : Text
  pub port : ℤ
  pub protocol : Text
  pub tls : Option Bool
  pub tls_options : Option (Assoc Text)

unfoldable pub gelf_fields : {S : Type 0} → GelfOutputConfig → List (Field S)
unfolding bool_pointer int_value tagged text_value
gelf_fields x =
    tagged "Host" "host" (text_value x.host)
    ∷ tagged "Port" "port" (int_value x.port)
    ∷ tagged "Protocol" "protocol,omitempty" (text_value x.protocol)
    ∷ tagged "TLS" "tls,omitempty" (bool_pointer x.tls)
    ∷ tagged "TLSOptions" "tls_options,omitempty" (string_map x.tls_options)
    ∷ []

-- `GELFOutputConfig.ToDirective`
unfoldable pub gelf_to_directive :
    {S : Type 0}
    → Json
    → Option (SecretLoader S)
    → Text
    → GelfOutputConfig
    → Directive ⊎ List FieldFault
gelf_to_directive json loader id x =
    plugin_directive json loader (match_meta (codes "gelf") id) (gelf_fields x) ([])

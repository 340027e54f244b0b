-- ===== src/Filter/Geoip.antt =====
-- geoip.go of pkg/sdk/logging/model/filter.
use logging_operator.Base.{Text, codes, Bool, Option, List, [], ◌∷◌, ◌⊎◌}
use logging_operator.Directive.{Directive}
use logging_operator.StringsMap.{Json, Field, FieldFault, SecretLoader}
use logging_operator.StringsMap.Tagged.{tagged, plugin_tagged, text_value, bool_value, struct_slice}
use logging_operator.Output.{one_each, plugin_directive}
use logging_operator.Filter.{filter_meta}
use logging_operator.Filter.Record.{Record, record_to_directive}

pub record GeoIp : Type 0 where
  pub geoip_lookup_keys : Text
  pub geoip_database : Text
  pub geoip2_database : Text
  pub backend_library : Text
  pub skip_adding_null_record : Bool
  pub records : Option (List Record)

unfoldable pub geoip_fields : {S : Type 0} → GeoIp → List (Field S)
unfolding bool_value plugin_tagged struct_slice tagged text_value
geoip_fields x =
    tagged "GeoipLookupKeys" "geoip_lookup_keys,omitempty" (text_value x.geoip_lookup_keys)
    ∷ tagged "GeoipDatabase" "geoip_database,omitempty" (text_value x.geoip_database)
    ∷ tagged "Geoip2Database" "geoip_2_database,omitempty" (text_value x.geoip2_database)
    ∷ tagged "BackendLibrary" "backend_library,omitempty" (text_value x.backend_library)
    ∷ plugin_tagged "SkipAddingNullRecord" "skip_adding_null_record,omitempty" "default:true"
        (bool_value x.skip_adding_null_record)
    ∷ tagged "Records" "records,omitempty" (struct_slice x.records)
    ∷ []

-- `GeoIP.ToDirective`
unfoldable pub geoip_to_directive :
    {S : Type 0} → Json → Option (SecretLoader S) → Text → GeoIp → Directive ⊎ List FieldFault
unfolding plugin_directive one_each record_to_directive filter_meta geoip_fields
geoip_to_directive json loader id x =
    plugin_directive json loader (filter_meta (codes "geoip") id) (geoip_fields x)
      (one_each record_to_directive x.records)

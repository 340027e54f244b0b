-- ===== src/Output/Redis.antt =====
-- redis.go of pkg/sdk/logging/model/output.
use logging_operator.Base.{Text, codes, Bool, Option, List, [], ◌∷◌, ◌++◌, ◌⊎◌}
use logging_operator.Base.Int.{ℤ}
use logging_operator.Directive.{Directive}
use logging_operator.StringsMap.{Json, secret, Field, FieldFault, SecretLoader}
use logging_operator.StringsMap.Tagged.{tagged, text_value, int_value, bool_value, struct_pointer}
use logging_operator.Output.{match_meta, optional, or_empty, plugin_directive}
use logging_operator.Output.Buffer.{Buffer, empty_buffer, buffer_to_directive}
use logging_operator.Output.Format.{Format, format_to_directive}

pub record RedisOutputConfig (S : Type 0) : Type 0 where
  pub host : Text
  pub port : ℤ
  pub db_number : ℤ
  pub password : Option S
  pub insert_key_prefix : Text
  pub strftime_format : Text
  pub allow_duplicate_key : Bool
  pub ttl : ℤ
  pub format : Option Format
  pub buffer : Option Buffer

unfoldable pub redis_fields : {S : Type 0} → RedisOutputConfig S → List (Field S)
unfolding bool_value int_value struct_pointer tagged text_value
redis_fields x =
    tagged "Host" "host,omitempty" (text_value x.host)
    ∷ tagged "Port" "port,omitempty" (int_value x.port)
    ∷ tagged "DbNumber" "db_number,omitempty" (int_value x.db_number)
    ∷ tagged "Password" "password,omitempty" (secret x.password)
    ∷ tagged "InsertKeyPrefix" "insert_key_prefix,omitempty" (text_value x.insert_key_prefix)
    ∷ tagged "StrftimeFormat" "strftime_format,omitempty" (text_value x.strftime_format)
    ∷ tagged "AllowDuplicateKey" "allow_duplicate_key,omitempty" (bool_value x.allow_duplicate_key)
    ∷ tagged "TTL" "ttl,omitempty" (int_value x.ttl)
    ∷ tagged "Format" "format,omitempty" (struct_pointer x.format)
    ∷ tagged "Buffer" "buffer,omitempty" (struct_pointer x.buffer)
    ∷ []

-- `RedisOutputConfig.ToDirective`
unfoldable pub redis_to_directive :
    {S : Type 0}
    → Json
    → Option (SecretLoader S)
    → Text
    → RedisOutputConfig S
    → Directive ⊎ List FieldFault
redis_to_directive json loader id x =
    plugin_directive json loader (match_meta (codes "redis") id) (redis_fields x) (
      (buffer_to_directive json loader id (or_empty empty_buffer x.buffer) ∷ [])
      ++ (optional (format_to_directive json loader) x.format))

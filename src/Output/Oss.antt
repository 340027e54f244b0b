-- ===== src/Output/Oss.antt =====
-- oss.go of pkg/sdk/logging/model/output.
use logging_operator.Base.{Text, codes, Bool, Option, List, [], ◌∷◌, ◌++◌, ◌⊎◌}
use logging_operator.Base.Int.{ℤ}
use logging_operator.Directive.{Directive}
use logging_operator.StringsMap.{Json, secret, Field, FieldFault, SecretLoader}
use logging_operator.StringsMap.Tagged.{tagged, text_value, int_value, bool_value, struct_pointer}
use logging_operator.Output.{match_meta, optional, or_empty, plugin_directive}
use logging_operator.Output.Buffer.{Buffer, empty_buffer, buffer_to_directive}
use logging_operator.Output.Format.{Format, format_to_directive}

pub record OssOutput (S : Type 0) : Type 0 where
  pub endpoint : Text
  pub bucket : Text
  pub access_key_id : Option S
  pub aaccess_key_secret : Option S
  pub path : Text
  pub upload_crc_enable : Bool
  pub download_crc_enable : Bool
  pub open_timeout : ℤ
  pub read_timeout : ℤ
  pub oss_sdk_log_dir : Text
  pub key_format : Text
  pub store_as : Text
  pub auto_create_bucket : Bool
  pub overwrite : Bool
  pub check_bucket : Bool
  pub check_object : Bool
  pub hex_random_length : ℤ
  pub index_format : Text
  pub warn_for_delay : Text
  pub format : Option Format
  pub buffer : Option Buffer

unfoldable pub oss_fields : {S : Type 0} → OssOutput S → List (Field S)
unfolding bool_value int_value struct_pointer tagged text_value
oss_fields x =
    tagged "Endpoint" "endpoint" (text_value x.endpoint)
    ∷ tagged "Bucket" "bucket" (text_value x.bucket)
    ∷ tagged "AccessKeyId" "access_key_id" (secret x.access_key_id)
    ∷ tagged "AaccessKeySecret" "aaccess_key_secret" (secret x.aaccess_key_secret)
    ∷ tagged "Path" "path,omitempty" (text_value x.path)
    ∷ tagged "UploadCrcEnable" "upload_crc_enable,omitempty" (bool_value x.upload_crc_enable)
    ∷ tagged "DownloadCrcEnable" "download_crc_enable,omitempty" (bool_value x.download_crc_enable)
    ∷ tagged "OpenTimeout" "open_timeout,omitempty" (int_value x.open_timeout)
    ∷ tagged "ReadTimeout" "read_timeout,omitempty" (int_value x.read_timeout)
    ∷ tagged "OssSdkLogDir" "oss_sdk_log_dir,omitempty" (text_value x.oss_sdk_log_dir)
    ∷ tagged "KeyFormat" "key_format,omitempty" (text_value x.key_format)
    ∷ tagged "StoreAs" "store_as,omitempty" (text_value x.store_as)
    ∷ tagged "AutoCreateBucket" "auto_create_bucket,omitempty" (bool_value x.auto_create_bucket)
    ∷ tagged "Overwrite" "overwrite,omitempty" (bool_value x.overwrite)
    ∷ tagged "CheckBucket" "check_bucket,omitempty" (bool_value x.check_bucket)
    ∷ tagged "CheckObject" "check_object,omitempty" (bool_value x.check_object)
    ∷ tagged "HexRandomLength" "hex_random_length,omitempty" (int_value x.hex_random_length)
    ∷ tagged "IndexFormat" "index_format,omitempty" (text_value x.index_format)
    ∷ tagged "WarnForDelay" "warn_for_delay,omitempty" (text_value x.warn_for_delay)
    ∷ tagged "Format" "format,omitempty" (struct_pointer x.format)
    ∷ tagged "Buffer" "buffer,omitempty" (struct_pointer x.buffer)
    ∷ []

-- `OSSOutput.ToDirective`
unfoldable pub oss_to_directive :
    {S : Type 0} → Json → Option (SecretLoader S) → Text → OssOutput S → Directive ⊎ List FieldFault
oss_to_directive json loader id x =
    plugin_directive json loader (match_meta (codes "oss") id) (oss_fields x) (
      (buffer_to_directive json loader id (or_empty empty_buffer x.buffer) ∷ [])
      ++ (optional (format_to_directive json loader) x.format))

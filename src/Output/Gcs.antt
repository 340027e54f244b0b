-- ===== src/Output/Gcs.antt =====
-- gcs.go of pkg/sdk/logging/model/output.
use logging_operator.Base.{Text, codes, Bool, Option, List, [], ◌∷◌, ◌++◌, ◌⊎◌}
use logging_operator.Base.Int.{ℤ}
use logging_operator.Directive.{meta_of, Directive}
use logging_operator.StringsMap.{Json, secret, Field, FieldFault, SecretLoader}
use logging_operator.StringsMap.Tagged.{
  tagged, text_value, int_value, bool_value, struct_pointer, struct_slice,
}
use logging_operator.StringsMap.Fields.{new_flat_directive}
use logging_operator.Output.{one_each, match_meta, optional, or_empty, plugin_directive}
use logging_operator.Output.Buffer.{Buffer, empty_buffer, buffer_to_directive}
use logging_operator.Output.Format.{Format, format_to_directive}

pub record ObjectMetadata : Type 0 where
  pub key : Text
  pub value : Text

unfoldable pub object_metadata_fields : {S : Type 0} → ObjectMetadata → List (Field S)
unfolding tagged text_value
object_metadata_fields x =
    tagged "Key" "key" (text_value x.key) ∷ tagged "Value" "value" (text_value x.value) ∷ []

unfoldable pub object_metadata_to_directive :
    {S : Type 0} → Json → Option (SecretLoader S) → ObjectMetadata → Directive ⊎ List FieldFault
unfolding object_metadata_fields new_flat_directive
object_metadata_to_directive json loader x =
    new_flat_directive json (meta_of (codes "object_metadata")) (object_metadata_fields x) loader

pub record GcsOutput (S : Type 0) : Type 0 where
  pub project : Text
  pub keyfile : Text
  pub credentials_json : Option S
  pub client_retries : ℤ
  pub client_timeout : ℤ
  pub bucket : Text
  pub object_key_format : Text
  pub path : Text
  pub store_as : Text
  pub transcoding : Bool
  pub auto_create_bucket : Bool
  pub hex_random_length : ℤ
  pub overwrite : Bool
  pub acl : Text
  pub storage_class : Text
  pub encryption_key : Text
  pub object_metadata : Option (List ObjectMetadata)
  pub format : Option Format
  pub buffer : Option Buffer

unfoldable pub gcs_fields : {S : Type 0} → GcsOutput S → List (Field S)
unfolding bool_value int_value struct_pointer struct_slice tagged text_value
gcs_fields x =
    tagged "Project" "project" (text_value x.project)
    ∷ tagged "Keyfile" "keyfile,omitempty" (text_value x.keyfile)
    ∷ tagged "CredentialsJson" "credentials_json,omitempty" (secret x.credentials_json)
    ∷ tagged "ClientRetries" "client_retries,omitempty" (int_value x.client_retries)
    ∷ tagged "ClientTimeout" "client_timeout,omitempty" (int_value x.client_timeout)
    ∷ tagged "Bucket" "bucket" (text_value x.bucket)
    ∷ tagged "ObjectKeyFormat" "object_key_format,omitempty" (text_value x.object_key_format)
    ∷ tagged "Path" "path,omitempty" (text_value x.path)
    ∷ tagged "StoreAs" "store_as,omitempty" (text_value x.store_as)
    ∷ tagged "Transcoding" "transcoding,omitempty" (bool_value x.transcoding)
    ∷ tagged "AutoCreateBucket" "auto_create_bucket,omitempty" (bool_value x.auto_create_bucket)
    ∷ tagged "HexRandomLength" "hex_random_length,omitempty" (int_value x.hex_random_length)
    ∷ tagged "Overwrite" "overwrite,omitempty" (bool_value x.overwrite)
    ∷ tagged "Acl" "acl,omitempty" (text_value x.acl)
    ∷ tagged "StorageClass" "storage_class,omitempty" (text_value x.storage_class)
    ∷ tagged "EncryptionKey" "encryption_key,omitempty" (text_value x.encryption_key)
    ∷ tagged "ObjectMetadata" "object_metadata,omitempty" (struct_slice x.object_metadata)
    ∷ tagged "Format" "format,omitempty" (struct_pointer x.format)
    ∷ tagged "Buffer" "buffer,omitempty" (struct_pointer x.buffer)
    ∷ []

-- `GCSOutput.ToDirective`
unfoldable pub gcs_to_directive :
    {S : Type 0} → Json → Option (SecretLoader S) → Text → GcsOutput S → Directive ⊎ List FieldFault
gcs_to_directive json loader id x =
    plugin_directive json loader (match_meta (codes "gcs") id) (gcs_fields x) (
      (buffer_to_directive json loader id (or_empty empty_buffer x.buffer) ∷ [])
      ++ (optional (format_to_directive json loader) x.format)
      ++ (one_each (object_metadata_to_directive json loader) x.object_metadata))

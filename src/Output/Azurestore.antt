-- ===== src/Output/Azurestore.antt =====
-- azurestore.go of pkg/sdk/logging/model/output.
use logging_operator.Base.{Text, codes, Bool, Option, List, [], ◌∷◌, ◌⊎◌}
use logging_operator.Directive.{Directive}
use logging_operator.StringsMap.{Json, secret, Field, FieldFault, SecretLoader}
use logging_operator.StringsMap.Tagged.{
  tagged, plugin_tagged, text_value, bool_value, struct_pointer,
}
use logging_operator.Output.{match_meta, or_empty, plugin_directive}
use logging_operator.Output.Buffer.{Buffer, empty_buffer, buffer_to_directive}

pub record AzureStorage (S : Type 0) : Type 0 where
  pub path : Text
  pub azure_storage_account : Option S
  pub azure_storage_access_key : Option S
  pub azure_storage_sas_token : Option S
  pub azure_container : Text
  pub azure_imds_api_version : Text
  pub azure_object_key_format : Text
  pub auto_create_container : Bool
  pub format : Text
  pub buffer : Option Buffer

unfoldable pub azure_fields : {S : Type 0} → AzureStorage S → List (Field S)
unfolding bool_value plugin_tagged struct_pointer tagged text_value
azure_fields x =
    tagged "Path" "path,omitempty" (text_value x.path)
    ∷ tagged "AzureStorageAccount" "azure_storage_account" (secret x.azure_storage_account)
    ∷ tagged "AzureStorageAccessKey" "azure_storage_access_key,omitempty"
        (secret x.azure_storage_access_key)
    ∷ tagged "AzureStorageSasToken" "azure_storage_sas_token,omitempty"
        (secret x.azure_storage_sas_token)
    ∷ tagged "AzureContainer" "azure_container" (text_value x.azure_container)
    ∷ tagged "AzureImdsApiVersion" "azure_imds_api_version,omitempty"
        (text_value x.azure_imds_api_version)
    ∷ tagged "AzureObjectKeyFormat" "azure_object_key_format,omitempty"
        (text_value x.azure_object_key_format)
    ∷ tagged "AutoCreateContainer" "auto_create_container,omitempty"
        (bool_value x.auto_create_container)
    ∷ plugin_tagged "Format" "format,omitempty" "default:json" (text_value x.format)
    ∷ tagged "Buffer" "buffer,omitempty" (struct_pointer x.buffer)
    ∷ []

-- `AzureStorage.ToDirective`
unfoldable pub azure_to_directive :
    {S : Type 0}
    → Json
    → Option (SecretLoader S)
    → Text
    → AzureStorage S
    → Directive ⊎ List FieldFault
azure_to_directive json loader id x =
    plugin_directive json loader (match_meta (codes "azure-storage-append-blob") id)
      (azure_fields x) ((buffer_to_directive json loader id (or_empty empty_buffer x.buffer) ∷ []))

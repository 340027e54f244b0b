-- ===== src/Output/Format.antt =====
-- format.go and format_rfc5424.go of pkg/sdk/logging/model/output: the `format` sections.
use logging_operator.Base.{
  Text, codes, is_empty, Bool, Option, none, List, [], ◌∷◌, ◌⊎◌, if◌then◌else◌,
}
use logging_operator.Directive.{meta_of, Directive}
use logging_operator.StringsMap.{Json, Field, FieldFault, SecretLoader}
use logging_operator.StringsMap.Tagged.{tagged, text_value, bool_pointer}
use logging_operator.StringsMap.Fields.{new_flat_directive}

pub record Format : Type 0 where
  pub type : Text
  pub add_newline : Option Bool
  pub message_key : Text

unfoldable pub format_fields : {S : Type 0} → Format → List (Field S)
unfolding bool_pointer tagged text_value
format_fields f =
    tagged "Type" "type,omitempty" (text_value f.type)
    ∷ tagged "AddNewline" "add_newline,omitempty" (bool_pointer f.add_newline)
    ∷ tagged "MessageKey" "message_key,omitempty" (text_value f.message_key)
    ∷ []

-- The type names the section, and is no parameter.
unfoldable pub format_to_directive :
    {S : Type 0} → Json → Option (SecretLoader S) → Format → Directive ⊎ List FieldFault
unfolding format_fields new_flat_directive
format_to_directive json loader f =
    new_flat_directive json
      (record (meta_of (codes "format")) {
        type = if is_empty f.type then codes "json" else f.type;
      })
      (format_fields (record f { type = [] })) loader

pub record FormatRfc5424 : Type 0 where
  pub type : Text
  pub rfc6587_message_size : Option Bool
  pub hostname_field : Text
  pub app_name_field : Text
  pub proc_id_field : Text
  pub message_id_field : Text
  pub structured_data_field : Text
  pub log_field : Text

unfoldable pub format_rfc5424_fields : {S : Type 0} → FormatRfc5424 → List (Field S)
unfolding bool_pointer tagged text_value
format_rfc5424_fields f =
    tagged "Type" "type,omitempty" (text_value f.type)
    ∷ tagged "Rfc6587MessageSize" "rfc6587_message_size,omitempty"
        (bool_pointer f.rfc6587_message_size)
    ∷ tagged "HostnameField" "hostname_field,omitempty" (text_value f.hostname_field)
    ∷ tagged "AppNameField" "app_name_field,omitempty" (text_value f.app_name_field)
    ∷ tagged "ProcIdField" "proc_id_field,omitempty" (text_value f.proc_id_field)
    ∷ tagged "MessageIdField" "message_id_field,omitempty" (text_value f.message_id_field)
    ∷ tagged "StructuredDataField" "structured_data_field,omitempty"
        (text_value f.structured_data_field)
    ∷ tagged "LogField" "log_field,omitempty" (text_value f.log_field)
    ∷ []

-- `FormatRfc5424{}`
abbrev pub empty_format_rfc5424 : FormatRfc5424
empty_format_rfc5424 = record {
  type = [];
  rfc6587_message_size = none;
  hostname_field = [];
  app_name_field = [];
  proc_id_field = [];
  message_id_field = [];
  structured_data_field = [];
  log_field = [];
}

-- The type names the section, and is no parameter.
unfoldable pub format_rfc5424_to_directive :
    {S : Type 0} → Json → Option (SecretLoader S) → FormatRfc5424 → Directive ⊎ List FieldFault
unfolding format_rfc5424_fields new_flat_directive
format_rfc5424_to_directive json loader f =
    new_flat_directive json
      (record (meta_of (codes "format")) {
        type = if is_empty f.type then codes "syslog_rfc5424" else f.type;
      })
      (format_rfc5424_fields (record f { type = [] })) loader

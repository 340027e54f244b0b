-- ===== src/Output/File.antt =====
-- file.go of pkg/sdk/logging/model/output.
use logging_operator.Base.{Text, codes, Bool, Option, List, [], ◌∷◌, ◌++◌, ◌⊎◌}
use logging_operator.Directive.{Directive}
use logging_operator.StringsMap.{Json, Field, FieldFault, SecretLoader}
use logging_operator.StringsMap.Tagged.{
  tagged, plugin_tagged, text_value, bool_value, bool_pointer, struct_pointer,
}
use logging_operator.Output.{match_meta, optional, or_empty, plugin_directive}
use logging_operator.Output.Buffer.{Buffer, empty_buffer, buffer_to_directive}
use logging_operator.Output.Format.{Format, format_to_directive}

pub record FileOutputConfig : Type 0 where
  pub path : Text
  pub append : Bool
  pub add_path_suffix : Option Bool
  pub path_suffix : Text
  pub symlink_path : Bool
  pub compress : Text
  pub recompress : Bool
  pub format : Option Format
  pub buffer : Option Buffer

unfoldable pub file_fields : {S : Type 0} → FileOutputConfig → List (Field S)
unfolding bool_pointer bool_value plugin_tagged struct_pointer tagged text_value
file_fields x =
    tagged "Path" "path" (text_value x.path)
    ∷ tagged "Append" "append,omitempty" (bool_value x.append)
    ∷ plugin_tagged "AddPathSuffix" "add_path_suffix,omitempty" "default:true"
        (bool_pointer x.add_path_suffix)
    ∷ tagged "PathSuffix" "path_suffix,omitempty" (text_value x.path_suffix)
    ∷ tagged "SymlinkPath" "symlink_path,omitempty" (bool_value x.symlink_path)
    ∷ tagged "Compress" "compress,omitempty" (text_value x.compress)
    ∷ tagged "Recompress" "recompress,omitempty" (bool_value x.recompress)
    ∷ tagged "Format" "format,omitempty" (struct_pointer x.format)
    ∷ tagged "Buffer" "buffer,omitempty" (struct_pointer x.buffer)
    ∷ []

-- `FileOutputConfig.ToDirective`
unfoldable pub file_to_directive :
    {S : Type 0}
    → Json
    → Option (SecretLoader S)
    → Text
    → FileOutputConfig
    → Directive ⊎ List FieldFault
file_to_directive json loader id x =
    plugin_directive json loader (match_meta (codes "file") id) (file_fields x) (
      (buffer_to_directive json loader id (or_empty empty_buffer x.buffer) ∷ [])
      ++ (optional (format_to_directive json loader) x.format))

-- ===== src/Examples/Outputs.antt =====
-- The theorems on the buffers of outputs, at a LogDNA output.
use logging_operator.Base.{Text, codes, ◌==◌, ◌≡◌, refl, Option, none, some, [], ◌∷◌, inl, true}
use logging_operator.Base.Int.{ℤ}
use logging_operator.Directive.{Directive, absent, generic, meta_of, nil, cons}
use logging_operator.Flow.{new_flow}
use logging_operator.Router.{System, new_router}
use logging_operator.System.Finish.{several, finish}
use logging_operator.Output.{match_meta, or_empty, plugin_directive}
use logging_operator.Output.Buffer.{Buffer, empty_buffer, buffer_to_directive}
use logging_operator.Output.Logdna.{logdna_fields, logdna_to_directive}
use logging_operator.Output.Kinds.{Buffered, logdna, to_directive, buffer_of, buffer_id}
use logging_operator.Output.Defaults.{MadeWith, default_buffer, to_directive-default_buffer}
use logging_operator.Output.Disabled.{finish-disabled_buffer}
use logging_operator.Examples.Data.{json, md5, secrets}

abbrev output : Option Buffer → Buffered Text
output buffer = logdna (record {
  api_key = codes "key";
  host_name = codes "host";
  app = [];
  tags = [];
  request_timeout = [];
  ingester_domain = [];
  ingester_endpoint = [];
  buffer = buffer;
})

to_directive-default_buffer_example :
    MadeWith
      (default_buffer (buffer_id (codes "main") (output none)))
      (to_directive json (some (secrets [])) (codes "main") (output none))
unfolding buffer_of
to_directive-default_buffer_example =
    to_directive-default_buffer json (some (secrets [])) (codes "main") (output none) refl

abbrev disabled_buffer : Buffer
disabled_buffer = record empty_buffer { disabled = true }

abbrev directive : Directive
directive =
    generic (match_meta (codes "logdna") (codes "main_logdna"))
      ((codes "api_key", codes "key") ∷ (codes "hostname", codes "host") ∷ []) (cons absent nil)

abbrev system : System
system = record {
  input = generic (meta_of (codes "source")) [] nil;
  global_filters = [];
  router = new_router (codes "main") [];
  flows = record (new_flow md5 [] [] [] []) { outputs = directive ∷ [] } ∷ [];
}

finish-disabled_buffer_example : finish (ℤ.pos 2) system ≡ none
unfolding buffer_of to_directive logdna_to_directive plugin_directive buffer_to_directive match_meta
    or_empty several codes ◌==◌ buffer_id new_flow logdna_fields
finish-disabled_buffer_example =
    finish-disabled_buffer json (some (secrets [])) (codes "main") (output (some disabled_buffer))
      disabled_buffer directive (ℤ.pos 2) system refl refl refl refl (inl (inl refl))

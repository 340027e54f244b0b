-- ===== src/Output/Defaults.antt =====
-- The buffer sections of the outputs: the one of an unset buffer, and the nil one of a disabled buffer.
use logging_operator.Base.{
  Text, codes, ◌==◌, ◌≡◌, refl, Option, none, List, [], ◌∷◌, ◌++◌, ◌⊎◌, inl, inr,
}
use logging_operator.Base.Assoc.{Assoc}
use logging_operator.Base.Lists.{Has, Has-append_left, Has-append_right}
use logging_operator.Directive.{Directive, generic, meta_of, Directives, nil, cons, to_list}
use logging_operator.StringsMap.{Json, Field, FieldFault, SecretLoader}
use logging_operator.StringsMap.{new_struct_to_string_mapper}
use logging_operator.StringsMap.Fields.{strings_map}
use logging_operator.Output.{
  then_section, OutputMade, match_meta, or_empty, optional, sections, with_sections,
  plugin_directive,
}
use logging_operator.Output.Buffer.{empty_buffer, buffer_to_directive}
use logging_operator.Output.File.{file_to_directive}
use logging_operator.Output.Syslog.{syslog_to_directive}
use logging_operator.Output.Redis.{redis_to_directive}
use logging_operator.Output.Kafka.{kafka_to_directive}
use logging_operator.Output.Datadog.{datadog_to_directive}
use logging_operator.Output.Logdna.{logdna_to_directive}
use logging_operator.Output.Oss.{oss_to_directive}
use logging_operator.Output.Gcs.{gcs_to_directive}
use logging_operator.Output.Azurestore.{azure_to_directive}
use logging_operator.Output.Sqs.{sqs_to_directive}
use logging_operator.Output.Http.{http_to_directive}
use logging_operator.Output.Cloudwatch.{cloudwatch_to_directive}
use logging_operator.Output.Sumologic.{sumologic_to_directive}
use logging_operator.Output.KinesisStream.{kinesis_stream_to_directive}
use logging_operator.Output.KinesisFirehose.{kinesis_firehose_to_directive}
use logging_operator.Output.Elasticsearch.{elasticsearch_to_directive}
use logging_operator.Output.Opensearch.{opensearch_to_directive}
use logging_operator.Output.Forward.{forward_output_to_directive}
use logging_operator.Output.Kinds.{
  Buffered, file, elasticsearch, opensearch, forward, syslog, redis, kafka, datadog, logdna, oss,
  gcs, azure, sqs, http, cloudwatch, sumologic, kinesis_stream, kinesis_firehose, to_directive,
  buffer_of, buffer_id,
}

-- The section of a buffer that nothing configures: a file below /buffers, named by the identifier
abbrev pub default_buffer : Text → Directive
default_buffer id =
    generic (record (meta_of (codes "buffer")) { type = codes "file"; tag = codes "tag,time" })
      ((codes "path", codes "/buffers/" ++ (id ++ codes ".*.buffer"))
        ∷ (codes "chunk_limit_size", codes "8MB")
        ∷ (codes "retry_forever", codes "true")
        ∷ (codes "timekey", codes "10m")
        ∷ (codes "timekey_wait", codes "1m")
        ∷ [])
      nil

-- Either a `match` directive that has the section, or errors
pub data MadeWith (section : Directive) (made : OutputMade) : Type 0 where
  returned :
      (type id : Text) (params : Assoc Text) (ds : Directives)
      → made ≡ inl (generic (match_meta type id) params ds)
      → Has (λ d. d ≡ section) (to_list ds)
      → MadeWith section made
  refused : (errs : List FieldFault) → made ≡ inr errs → MadeWith section made

then_section-inl :
    (d : Directive) (result : Directives ⊎ List FieldFault) (ds : Directives)
    → then_section d result ≡ inl ds
    → (rest : Directives) × (result ≡ inl rest) × (ds ≡ cons d rest)
unfolding then_section
then_section-inl d (inl rest) ds h = (rest, refl, cc)
then_section-inl d (inr errs) ds h = absurd (cc (h))

module _ (section : Directive) where
  -- A section that is made stands in the list, if all can be made.
  sections-Has :
      (made : List OutputMade) (ds : Directives)
      → sections made ≡ inl ds
      → Has (λ m. m ≡ inl section) made
      → Has (λ d. d ≡ section) (to_list ds)
  unfolding sections
  sections-Has [] ds h has = absurd has
  sections-Has (inr errs ∷ made) ds h has = absurd (cc (h))
  sections-Has (inl d ∷ made) ds h has =
      let (rest, e, f) = then_section-inl d (sections made) ds h in
      elim has [ inl p ↦ rw f (inl cc) | inr more ↦ rw f (inr (sections-Has made rest e more)) ]

  from_sections :
      (type id : Text) (params : Assoc Text) (errs : List FieldFault) (made : List OutputMade)
      (result : Directives ⊎ List FieldFault)
      → sections made ≡ result
      → Has (λ m. m ≡ inl section) made
      → MadeWith section (with_sections (match_meta type id) (params, errs) result)
  unfolding with_sections
  from_sections type id params (e ∷ errs) made result h has = refused (e ∷ errs) refl
  from_sections type id params [] made (inr errs) h has = refused errs refl
  from_sections type id params [] made (inl ds) h has =
      returned type id params ds refl (sections-Has made ds h has)

  module _ {S : Type 0} (json : Json) (loader : Option (SecretLoader S)) where
    plugin_directive-MadeWith :
        (type id : Text) (fields : List (Field S)) (made : List OutputMade)
        → Has (λ m. m ≡ inl section) made
        → MadeWith section (plugin_directive json loader (match_meta type id) fields made)
    unfolding plugin_directive
    plugin_directive-MadeWith type id fields made has =
        let (params, errs) = strings_map (new_struct_to_string_mapper loader) json fields in
        from_sections type id params errs made (sections made) refl has

    pub to_directive-MadeWith :
        (id : Text) (out : Buffered S)
        → buffer_to_directive json loader (buffer_id id out) (or_empty empty_buffer (buffer_of out))
          ≡ inl section
        → MadeWith section (to_directive json loader id out)
    unfolding to_directive buffer_of buffer_id file_to_directive elasticsearch_to_directive
        opensearch_to_directive forward_output_to_directive syslog_to_directive redis_to_directive
        kafka_to_directive datadog_to_directive logdna_to_directive oss_to_directive
        gcs_to_directive azure_to_directive sqs_to_directive http_to_directive
        cloudwatch_to_directive sumologic_to_directive kinesis_stream_to_directive
        kinesis_firehose_to_directive
    to_directive-MadeWith id (file x) made = plugin_directive-MadeWith _ _ _ _ (inl made)
    to_directive-MadeWith id (elasticsearch x) made = plugin_directive-MadeWith _ _ _ _ (inl made)
    to_directive-MadeWith id (opensearch x) made = plugin_directive-MadeWith _ _ _ _ (inl made)
    to_directive-MadeWith id (forward x) made = plugin_directive-MadeWith _ _ _ _ (inl made)
    to_directive-MadeWith id (syslog x) made = plugin_directive-MadeWith _ _ _ _ (inl made)
    to_directive-MadeWith id (redis x) made = plugin_directive-MadeWith _ _ _ _ (inl made)
    to_directive-MadeWith id (kafka x) made = plugin_directive-MadeWith _ _ _ _ (inl made)
    to_directive-MadeWith id (datadog x) made = plugin_directive-MadeWith _ _ _ _ (inl made)
    to_directive-MadeWith id (logdna x) made = plugin_directive-MadeWith _ _ _ _ (inl made)
    to_directive-MadeWith id (oss x) made = plugin_directive-MadeWith _ _ _ _ (inl made)
    to_directive-MadeWith id (gcs x) made = plugin_directive-MadeWith _ _ _ _ (inl made)
    to_directive-MadeWith id (azure x) made = plugin_directive-MadeWith _ _ _ _ (inl made)
    to_directive-MadeWith id (sqs x) made = plugin_directive-MadeWith _ _ _ _ (inl made)
    to_directive-MadeWith id (http x) made = plugin_directive-MadeWith _ _ _ _ (inl made)
    to_directive-MadeWith id (cloudwatch x) made = plugin_directive-MadeWith _ _ _ _ (inl made)
    to_directive-MadeWith id (sumologic x) made = plugin_directive-MadeWith _ _ _ _ (inl made)
    to_directive-MadeWith id (kinesis_stream x) made =
        plugin_directive-MadeWith _ _ _ _
          (Has-append_left _ _ _ (Has-append_right _ (optional _ _ ++ optional _ _) _ (inl made)))
    to_directive-MadeWith id (kinesis_firehose x) made =
        plugin_directive-MadeWith _ _ _ _
          (Has-append_left _ _ _ (Has-append_right _ (optional _ _ ++ optional _ _) _ (inl made)))

module _ {S : Type 0} (json : Json) (loader : Option (SecretLoader S)) where
  empty_buffer-default :
      (id : Text) → buffer_to_directive json loader id empty_buffer ≡ inl (default_buffer id)
  unfolding buffer_to_directive codes ◌==◌
  empty_buffer-default id = refl

  -- Every output of these kinds whose buffer is not configured either is refused with errors, or is
  -- made into a `match` directive with a `buffer` section of type file, keyed by tag and time, whose
  -- path is below /buffers and contains the identifier, and which is retried forever.
  pub to_directive-default_buffer :
      (id : Text) (out : Buffered S)
      → buffer_of out ≡ none
      → MadeWith (default_buffer (buffer_id id out)) (to_directive json loader id out)
  unfolding or_empty
  to_directive-default_buffer id out unset =
      to_directive-MadeWith (default_buffer (buffer_id id out)) json loader id out
        (rw unset (empty_buffer-default (buffer_id id out)))

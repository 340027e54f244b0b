-- ===== src/Output/Buffer.antt =====
-- buffer.go of pkg/sdk/logging/model/output: the `buffer` section of an output.
use logging_operator.Base.{
  Text, codes, ◌==◌, is_empty, not, ◌&&◌, Bool, false, Option, none, some, List, [], ◌∷◌, ◌++◌, ◌⊎◌,
  inl, if◌then◌else◌,
}
use logging_operator.Base.Int.{ℤ}
use logging_operator.Directive.{meta_of, PluginMeta, Directive, absent}
use logging_operator.StringsMap.{Json, Field, FieldFault, SecretLoader}
use logging_operator.StringsMap.Tagged.{
  tagged, plugin_tagged, text_value, int_value, bool_value, text_pointer, bool_pointer,
}
use logging_operator.StringsMap.Fields.{new_flat_directive}

pub record Buffer : Type 0 where
  pub disabled : Bool
  pub type : Text
  pub tags : Option Text
  pub path : Text
  pub chunk_limit_size : Text
  pub chunk_limit_records : ℤ
  pub total_limit_size : Text
  pub queue_limit_length : ℤ
  pub chunk_full_threshold : Text
  pub queued_chunks_limit_size : ℤ
  pub compress : Text
  pub flush_at_shutdown : Bool
  pub flush_mode : Text
  pub flush_interval : Text
  pub flush_thread_count : ℤ
  pub flush_thread_interval : Text
  pub flush_thread_burst_interval : Text
  pub delayed_commit_timeout : Text
  pub overflow_action : Text
  pub retry_timeout : Text
  pub retry_forever : Option Bool
  pub retry_max_times : ℤ
  pub retry_secondary_threshold : Text
  pub retry_type : Text
  pub retry_wait : Text
  pub retry_exponential_backoff_base : Text
  pub retry_max_interval : Text
  pub retry_randomize : Bool
  pub disable_chunk_backup : Bool
  pub timekey : Text
  pub timekey_wait : Text
  pub timekey_use_utc : Bool
  pub timekey_zone : Text

-- `Buffer{}`
abbrev pub empty_buffer : Buffer
empty_buffer = record {
  disabled = false;
  type = [];
  tags = none;
  path = [];
  chunk_limit_size = [];
  chunk_limit_records = ℤ.pos 0;
  total_limit_size = [];
  queue_limit_length = ℤ.pos 0;
  chunk_full_threshold = [];
  queued_chunks_limit_size = ℤ.pos 0;
  compress = [];
  flush_at_shutdown = false;
  flush_mode = [];
  flush_interval = [];
  flush_thread_count = ℤ.pos 0;
  flush_thread_interval = [];
  flush_thread_burst_interval = [];
  delayed_commit_timeout = [];
  overflow_action = [];
  retry_timeout = [];
  retry_forever = none;
  retry_max_times = ℤ.pos 0;
  retry_secondary_threshold = [];
  retry_type = [];
  retry_wait = [];
  retry_exponential_backoff_base = [];
  retry_max_interval = [];
  retry_randomize = false;
  disable_chunk_backup = false;
  timekey = [];
  timekey_wait = [];
  timekey_use_utc = false;
  timekey_zone = [];
}

unfoldable pub buffer_fields : {S : Type 0} → Buffer → List (Field S)
unfolding bool_pointer bool_value int_value plugin_tagged tagged text_pointer text_value
buffer_fields b =
    plugin_tagged "Disabled" "disabled,omitempty" "default:false,hidden" (bool_value b.disabled)
    ∷ tagged "Type" "type,omitempty" (text_value b.type)
    ∷ tagged "Tags" "tags,omitempty" (text_pointer b.tags)
    ∷ tagged "Path" "path,omitempty" (text_value b.path)
    ∷ plugin_tagged "ChunkLimitSize" "chunk_limit_size,omitempty" "default:8MB"
        (text_value b.chunk_limit_size)
    ∷ tagged "ChunkLimitRecords" "chunk_limit_records,omitempty" (int_value b.chunk_limit_records)
    ∷ tagged "TotalLimitSize" "total_limit_size,omitempty" (text_value b.total_limit_size)
    ∷ tagged "QueueLimitLength" "queue_limit_length,omitempty" (int_value b.queue_limit_length)
    ∷ tagged "ChunkFullThreshold" "chunk_full_threshold,omitempty"
        (text_value b.chunk_full_threshold)
    ∷ tagged "QueuedChunksLimitSize" "queued_chunks_limit_size,omitempty"
        (int_value b.queued_chunks_limit_size)
    ∷ tagged "Compress" "compress,omitempty" (text_value b.compress)
    ∷ tagged "FlushAtShutdown" "flush_at_shutdown,omitempty" (bool_value b.flush_at_shutdown)
    ∷ tagged "FlushMode" "flush_mode,omitempty" (text_value b.flush_mode)
    ∷ tagged "FlushInterval" "flush_interval,omitempty" (text_value b.flush_interval)
    ∷ tagged "FlushThreadCount" "flush_thread_count,omitempty" (int_value b.flush_thread_count)
    ∷ tagged "FlushThreadInterval" "flush_thread_interval,omitempty"
        (text_value b.flush_thread_interval)
    ∷ tagged "FlushThreadBurstInterval" "flush_thread_burst_interval,omitempty"
        (text_value b.flush_thread_burst_interval)
    ∷ tagged "DelayedCommitTimeout" "delayed_commit_timeout,omitempty"
        (text_value b.delayed_commit_timeout)
    ∷ tagged "OverflowAction" "overflow_action,omitempty" (text_value b.overflow_action)
    ∷ tagged "RetryTimeout" "retry_timeout,omitempty" (text_value b.retry_timeout)
    ∷ plugin_tagged "RetryForever" "retry_forever,omitempty" "default:true"
        (bool_pointer b.retry_forever)
    ∷ tagged "RetryMaxTimes" "retry_max_times,omitempty" (int_value b.retry_max_times)
    ∷ tagged "RetrySecondaryThreshold" "retry_secondary_threshold,omitempty"
        (text_value b.retry_secondary_threshold)
    ∷ tagged "RetryType" "retry_type,omitempty" (text_value b.retry_type)
    ∷ tagged "RetryWait" "retry_wait,omitempty" (text_value b.retry_wait)
    ∷ tagged "RetryExponentialBackoffBase" "retry_exponential_backoff_base,omitempty"
        (text_value b.retry_exponential_backoff_base)
    ∷ tagged "RetryMaxInterval" "retry_max_interval,omitempty" (text_value b.retry_max_interval)
    ∷ tagged "RetryRandomize" "retry_randomize,omitempty" (bool_value b.retry_randomize)
    ∷ tagged "DisableChunkBackup" "disable_chunk_backup,omitempty"
        (bool_value b.disable_chunk_backup)
    ∷ plugin_tagged "Timekey" "timekey" "default:10m" (text_value b.timekey)
    ∷ plugin_tagged "TimekeyWait" "timekey_wait,omitempty" "default:1m" (text_value b.timekey_wait)
    ∷ tagged "TimekeyUseUtc" "timekey_use_utc,omitempty" (bool_value b.timekey_use_utc)
    ∷ tagged "TimekeyZone" "timekey_zone,omitempty" (text_value b.timekey_zone)
    ∷ []

unfoldable pub buffer_meta : Buffer → PluginMeta
buffer_meta b = record (meta_of (codes "buffer")) {
  type = if is_empty b.type then codes "file" else b.type;
  tag = elim b.tags [ none ↦ codes "tag,time" | some tags ↦ tags ];
}

unfoldable pub default_path : Text → Text
default_path id = codes "/buffers/" ++ (id ++ codes ".*.buffer")

-- The copy whose fields are the parameters
unfoldable pub buffer_parameters : Text → Buffer → Buffer
unfolding default_path
buffer_parameters id b = record b {
  path = if is_empty b.path && not (b.type == codes "memory") then default_path id else b.path;
  type = [];
  tags = none;
}

-- `Buffer.ToDirective`; a disabled buffer is nil, without an error.
unfoldable pub buffer_to_directive :
    {S : Type 0} → Json → Option (SecretLoader S) → Text → Buffer → Directive ⊎ List FieldFault
unfolding buffer_fields buffer_meta buffer_parameters new_flat_directive
buffer_to_directive json loader id b =
    if b.disabled
    then inl absent
    else new_flat_directive json (buffer_meta b) (buffer_fields (buffer_parameters id b)) loader

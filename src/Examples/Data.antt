-- ===== src/Examples/Data.antt =====
-- A logging with one Flow, one ClusterFlow, one Output and one ClusterOutput; and small systems.
use logging_operator.Base.{Text, codes, true, false, none, some, [], ◌∷◌, inl, join}
use logging_operator.Base.Int.{pos}
use logging_operator.Directive.{meta_of, absent, generic, nil}
use logging_operator.StringsMap.{Json, SecretLoader}
use logging_operator.Router.{new_router, SystemBuilder, new_system_builder, System, build}
use logging_operator.Resources.{
  Plugin, plain, unset, set, OutputSpec, Select, FlowResource, ClusterFlow, Output, ClusterOutput,
}
use logging_operator.System.Create.{Outcome, ok, failed, crashed}
use logging_operator.System.Logging.{FluentdSpec, Logging, LoggingResources}

abbrev pub json : Json
json = record {
  marshal_strings = λ l. some (join l (codes ","));
  marshal_ints = λ l. some [];
  marshal_map = λ m. some (codes "{}");
  reads_ints = λ t. true;
  reads_map = λ t. true;
}

-- A hash for the tests, which keeps its input
abbrev pub md5 : Text → Text
md5 t = t

abbrev pub secrets : Text → SecretLoader Text
secrets namespace s = inl s

abbrev pub stdout : Plugin Text
stdout = record {
  to_directive = λ loader id. inl (
      generic
        (record (meta_of (codes "match")) { type = codes "stdout"; tag = codes "**"; id = id }) []
        nil);
  secrets = codes "key" ∷ [];
}

abbrev pub stdout_spec : OutputSpec Text
stdout_spec =
    plain (codes "LoggingRef") (codes "loggingRef,omitempty")
    ∷ unset (codes "S3OutputConfig") (codes "s3,omitempty")
    ∷ set (codes "NullOutputConfig") (codes "nullout,omitempty") stdout
    ∷ []

abbrev pub output : Output Text
output = record {
  namespace = codes "web";
  name = codes "out";
  logging_ref = [];
  spec = stdout_spec;
}

abbrev pub cluster_output : ClusterOutput Text
cluster_output = record {
  namespace = codes "logging";
  name = codes "all";
  logging_ref = [];
  spec = stdout_spec;
  enabled_namespaces = [];
}

abbrev pub nginx : Select
nginx = record {
  labels = (codes "app", codes "nginx") ∷ [];
  hosts = [];
  container_names = codes "main" ∷ [];
}

abbrev pub flow : FlowResource Text
flow = record {
  namespace = codes "web";
  name = codes "flow";
  spec = record {
    selectors = none;
    match = some (record { select = some nginx; exclude = none } ∷ []);
    filters = [];
    logging_ref = [];
    output_refs = [];
    global_output_refs = codes "all" ∷ [];
    local_output_refs = codes "out" ∷ codes "gone" ∷ [];
  };
}

-- A match with a selection and an exclusion
abbrev pub invalid_flow : FlowResource Text
invalid_flow = record {
  namespace = codes "web";
  name = codes "bad";
  spec = record {
    selectors = none;
    match = some (record { select = some nginx; exclude = some nginx } ∷ []);
    filters = [];
    logging_ref = [];
    output_refs = [];
    global_output_refs = codes "all" ∷ [];
    local_output_refs = [];
  };
}

abbrev pub cluster_flow : ClusterFlow Text
cluster_flow = record {
  namespace = codes "logging";
  name = codes "cluster";
  spec = record {
    selectors = some ((codes "app", codes "nginx") ∷ []);
    match = none;
    filters = [];
    logging_ref = [];
    output_refs = [];
    global_output_refs = codes "all" ∷ [];
  };
}

abbrev pub fluentd : FluentdSpec
fluentd = record {
  tls_enabled = false;
  shared_key = [];
  metrics = true;
  workers = pos 2;
  forward_input_config = none;
}

abbrev pub logging : Logging Text
logging = record {
  namespace = [];
  name = codes "main";
  logging_ref = [];
  skip_invalid_resources = true;
  fluentd_spec = some fluentd;
  default_flow_spec = none;
  error_output_ref = [];
  global_filters = [];
  watch_namespaces = [];
  control_namespace = codes "logging";
  allow_cluster_resources_from_all_namespaces = false;
}

abbrev pub cluster_resources : LoggingResources Text
cluster_resources = record {
  logging = logging;
  outputs = output ∷ [];
  flows = flow ∷ [];
  cluster_outputs = cluster_output ∷ [];
  cluster_flows = cluster_flow ∷ [];
}

abbrev pub invalid_resources : LoggingResources Text
invalid_resources = record cluster_resources { flows = invalid_flow ∷ [] }

abbrev pub empty_builder : SystemBuilder
empty_builder = new_system_builder absent [] (new_router [] [])

abbrev pub system_of : Outcome System → System
system_of (ok s) = s
system_of (failed errs) = build empty_builder
system_of crashed = build empty_builder

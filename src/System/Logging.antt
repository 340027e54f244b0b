-- ===== src/System/Logging.antt =====
-- The `Logging` resource of pkg/sdk/logging/api/v1beta1, and `LoggingResources` of resources.go.
use logging_operator.Base.{Text, Bool, Option, List}
use logging_operator.Base.Int.{ℤ}
use logging_operator.Input.{ForwardInputConfig}
use logging_operator.Resources.{Filter, FlowResource, ClusterFlow, Output, ClusterOutput}

-- The fields of `FluentdSpec` that the model reads; `metrics` says whether they are configured.
pub record FluentdSpec : Type 0 where
  pub tls_enabled : Bool
  pub shared_key : Text
  pub metrics : Bool
  pub workers : ℤ
  pub forward_input_config : Option ForwardInputConfig

pub record DefaultFlowSpec (S : Type 0) : Type 0 where
  pub filters : List (Filter S)
  pub output_refs : List Text
  pub global_output_refs : List Text

-- A `Logging` and the fields of its spec that the model reads
pub record Logging (S : Type 0) : Type 0 where
  pub namespace : Text
  pub name : Text
  pub logging_ref : Text
  pub skip_invalid_resources : Bool
  pub fluentd_spec : Option FluentdSpec
  pub default_flow_spec : Option (DefaultFlowSpec S)
  pub error_output_ref : Text
  pub global_filters : List (Filter S)
  pub watch_namespaces : List Text
  pub control_namespace : Text
  pub allow_cluster_resources_from_all_namespaces : Bool

pub record LoggingResources (S : Type 0) : Type 0 where
  pub logging : Logging S
  pub outputs : List (Output S)
  pub flows : List (FlowResource S)
  pub cluster_outputs : List (ClusterOutput S)
  pub cluster_flows : List (ClusterFlow S)

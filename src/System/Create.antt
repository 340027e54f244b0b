-- ===== src/System/Create.antt =====
-- `CreateSystem` of system.go.
use logging_operator.System.Logging.{FluentdSpec, DefaultFlowSpec, Logging, LoggingResources}
use logging_operator.System.Finish.{finish}
use logging_operator.Base.{
  Text, codes, is_empty, Bool, true, false, Option, none, some, List, [], ◌∷◌, map, ◌⊎◌, inl, inr,
  if◌then◌else◌,
}
use logging_operator.Base.Assoc.{Assoc}
use logging_operator.Directive.{meta_of, Directive}
use logging_operator.StringsMap.{Json, SecretLoader, FieldFault}
use logging_operator.StringsMap.Fields.{new_flat_directive}
use logging_operator.Input.{ForwardInputConfig, new_forward_input_config, forward_to_directive}
use logging_operator.Flow.{Flow, format_bool, with_outputs}
use logging_operator.Router.{
  new_router, SystemBuilder, new_system_builder, Registered, registered, refused, panics,
  register_flow, register_error_flow, register_default_flow, System, build,
}
use logging_operator.Resources.{ClusterOutput}
use logging_operator.System.{
  Fault, root_input, null_output, build_failed, Made, filters_for_filters,
}
use logging_operator.System.Flows.{
  flow_for_flow, flow_for_cluster_flow, flow_for_default_flow, flow_for_error, error_flow,
}

-- A result, errors, or a nil pointer that is read
pub data Outcome (A : Type 0) : Type 0 where
  ok : A → Outcome A
  failed : List Fault → Outcome A
  crashed : Outcome A

infixl 5 ◌>>=◌
abbrev pub ◌>>=◌ : {A B : Type 0} → Outcome A → (A → Outcome B) → Outcome B
ok a >>= f = f a
failed errs >>= f = failed errs
crashed >>= f = crashed

unfoldable pub after : Registered → Outcome SystemBuilder
after (registered s) = ok s
after (refused e s) = failed (build_failed e ∷ [])
after panics = crashed

-- One round of the loops over flows: with `skip` the errors are only logged.
unfoldable pub add_flow :
    (Assoc Text → Option Text) → Bool → Made (Option Flow) → SystemBuilder → Outcome SystemBuilder
unfolding after register_flow
add_flow marshal skip (flow, []) b = after (register_flow marshal b flow)
add_flow marshal true (flow, (e ∷ errs)) b = after (register_flow marshal b flow)
add_flow marshal false (flow, (e ∷ errs)) b = failed (e ∷ errs)

unfoldable pub add_flows :
    (Assoc Text → Option Text)
    → Bool
    → List (Made (Option Flow))
    → SystemBuilder
    → Outcome SystemBuilder
unfolding add_flow
add_flows marshal skip [] b = ok b
add_flows marshal skip (f ∷ fs) b = add_flow marshal skip f b >>= add_flows marshal skip fs

-- Its flow is never nil.
unfoldable pub add_default :
    (Assoc Text → Option Text) → Made (Option Flow) → SystemBuilder → Outcome SystemBuilder
unfolding after register_default_flow
add_default marshal (none, []) b = crashed
add_default marshal (some flow, []) b = after (register_default_flow marshal b flow)
add_default marshal (flow, (e ∷ errs)) b = failed (e ∷ errs)

-- The transport and the security that TLS brings
with_tls : Bool → Text → ForwardInputConfig → ForwardInputConfig
with_tls false shared_key f = f
with_tls true shared_key f = record f {
  transport = some (record {
    protocol = [];
    version = codes "TLSv1_2";
    ciphers = [];
    insecure = false;
    ca_path = codes "/fluentd/tls/ca.crt";
    cert_path = codes "/fluentd/tls/tls.crt";
    private_key_path = codes "/fluentd/tls/tls.key";
    private_key_passphrase = [];
    client_cert_auth = true;
    ca_cert_path = [];
    ca_private_key_path = [];
    ca_private_key_passphrase = [];
  });
  security = some (record {
    self_hostname = codes "fluentd";
    shared_key = shared_key;
    user_auth = false;
    allow_anonymous_source = false;
  });
}

or_new : Option ForwardInputConfig → ForwardInputConfig
unfolding new_forward_input_config
or_new none = new_forward_input_config
or_new (some f) = f

forward_input : FluentdSpec → ForwardInputConfig
unfolding with_tls or_new
forward_input f = with_tls f.tls_enabled f.shared_key (or_new f.forward_input_config)

-- A panic, where there is nothing
unfoldable pub of_pointer : {A : Type 0} → Option A → Outcome A
of_pointer none = crashed
of_pointer (some a) = ok a

of_fields : {A : Type 0} → (List FieldFault → Fault) → A ⊎ List FieldFault → Outcome A
of_fields fault (inl a) = ok a
of_fields fault (inr errs) = failed (fault errs ∷ [])

of_fault : {A : Type 0} → A ⊎ Fault → Outcome A
of_fault (inl a) = ok a
of_fault (inr e) = failed (e ∷ [])

of_made : {A : Type 0} → Made A → Outcome A
of_made (a, []) = ok a
of_made (a, (e ∷ errs)) = failed (e ∷ errs)

module _ {S : Type 0} (json : Json) (md5 : Text → Text) (secrets : Text → SecretLoader S) where
  -- The error flow of a reference, or the one to the null output
  unfoldable pub chosen_error_flow : Logging S → List (ClusterOutput S) → Outcome Flow
  unfolding of_fault of_fields flow_for_error new_flat_directive error_flow with_outputs
  chosen_error_flow logging cluster_outputs =
      if is_empty logging.error_output_ref
      then (do
        plugin ← of_fields null_output (
            new_flat_directive {S = S} json
              (record (meta_of (codes "match")) {
                type = codes "null";
                tag = codes "**";
                id = codes "main-fluentd-error";
              })
              [] none)
        ok (with_outputs error_flow (plugin ∷ [])))
      else of_fault (flow_for_error secrets logging.error_output_ref cluster_outputs)

  -- The registration of the default flow, if there is one
  unfoldable pub register_default :
      Logging S
      → Option (DefaultFlowSpec S)
      → List (ClusterOutput S)
      → SystemBuilder
      → Outcome SystemBuilder
  unfolding add_default flow_for_default_flow
  register_default logging none cluster_outputs b = ok b
  register_default logging (some d) cluster_outputs b =
      add_default json.marshal_map
        (flow_for_default_flow md5 secrets logging.namespace logging.name d.filters
          d.global_output_refs cluster_outputs)
        b

  -- The registrations, last to first: the error flow, the default flow, the cluster flows, the flows
  unfoldable pub register_error : LoggingResources S → SystemBuilder → Outcome SystemBuilder
  unfolding after chosen_error_flow register_error_flow
  register_error r b = do
    error ← chosen_error_flow r.logging r.cluster_outputs
    after (register_error_flow b error)

  unfoldable pub then_default : LoggingResources S → SystemBuilder → Outcome SystemBuilder
  unfolding register_default register_error
  then_default r b =
      register_default r.logging r.logging.default_flow_spec r.cluster_outputs b
      >>= register_error r

  unfoldable pub then_cluster_flows : LoggingResources S → SystemBuilder → Outcome SystemBuilder
  unfolding add_flows flow_for_cluster_flow then_default
  then_cluster_flows r b =
      add_flows json.marshal_map r.logging.skip_invalid_resources
        (map (λ f. flow_for_cluster_flow md5 secrets f r.cluster_outputs) r.cluster_flows) b
      >>= then_default r

  unfoldable pub register_all : LoggingResources S → SystemBuilder → Outcome SystemBuilder
  unfolding add_flows flow_for_flow then_cluster_flows
  register_all r b =
      add_flows json.marshal_map r.logging.skip_invalid_resources
        (map (λ f. flow_for_flow md5 secrets f r.cluster_outputs r.outputs) r.flows) b
      >>= then_cluster_flows r

  -- The system of the input and the global filters, for a configured fluentd
  unfoldable pub system_with :
      LoggingResources S → FluentdSpec → Directive → List Directive → Outcome System
  unfolding new_router format_bool new_system_builder register_all build of_pointer finish
  system_with r fluentd input filters = do
    b ← register_all r (
        new_system_builder input filters
          (new_router (codes "main") ((codes "metrics", format_bool fluentd.metrics) ∷ [])))
    of_pointer (finish fluentd.workers (build b))

  pub root_input_of : LoggingResources S → FluentdSpec → Outcome Directive
  unfolding of_fields forward_input forward_to_directive
  root_input_of r fluentd = of_fields root_input (
      forward_to_directive json (forward_input fluentd) (some (secrets r.logging.control_namespace))
        (codes "main"))

  pub global_filters_of : LoggingResources S → Outcome (List Directive)
  unfolding of_made filters_for_filters
  global_filters_of r = of_made (
      filters_for_filters (codes "globalFilter") (codes "globalFilter")
        (some (secrets r.logging.control_namespace)) r.logging.global_filters)

  unfoldable pub create_for : LoggingResources S → Option FluentdSpec → Outcome System
  unfolding root_input_of global_filters_of system_with
  create_for r none = crashed
  create_for r (some fluentd) = do
    input ← root_input_of r fluentd
    filters ← global_filters_of r
    system_with r fluentd input filters

  -- `CreateSystem`
  unfoldable pub create_system : LoggingResources S → Outcome System
  unfolding create_for
  create_system r = create_for r r.logging.fluentd_spec

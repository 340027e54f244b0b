-- ===== src/Examples/Systems.antt =====
-- The theorems on systems, at concrete resources.
use logging_operator.Base.{
  codes, ◌==◌, ◌≡◌, ◌≢◌, refl, false, Option, none, some, List, [], ◌∷◌, inl, Text, arith, true,
}
use logging_operator.Base.Lists.{All}
use logging_operator.Flow.{FlowMatch, Flow, new_flow}
use logging_operator.Router.{System, has_label, new_system_builder}
use logging_operator.System.{Fault, select_match, select_and_exclude}
use logging_operator.System.Flows.{
  flow_for_flow, flow_for_cluster_flow, flow_matches, cluster_flow_matches, selector_match,
}
use logging_operator.System.Create.{create_system, register_all, ok, crashed, add_flows}
use logging_operator.System.Whole.{IsSystemOf, create_system-IsSystemOf}
use logging_operator.System.ClusterOutputs.{IsClusterFlowOf, flow_for_cluster_flow-IsClusterFlowOf}
use logging_operator.System.Buffers.{Ended, finish-All}
use logging_operator.StringsMap.{Field, scalar, str}
use logging_operator.StringsMap.Fields.{new_flat_directive}
use logging_operator.StringsMap.Rules.{IsFlat, written_by, new_flat_directive-IsFlat}
use logging_operator.Directive.{meta_of}
use logging_operator.System.Progress.{without_errors, IsRegistered, add_flows-IsRegistered}
use logging_operator.System.Outputs.{IsFlowOf, flow_for_flow-IsFlowOf}
use logging_operator.System.Isolation.{IsOf, flow_for_flow-All}
use logging_operator.System.Skipped.{both_parts, skipped_flow_crashes, invalid_flow_no_system}
use logging_operator.Examples.Data.{
  json, md5, nginx, cluster_flow, secrets, flow, invalid_flow, output, cluster_output,
  cluster_resources, invalid_resources, empty_builder, system_of,
}

abbrev system : System
system = system_of (create_system json md5 secrets cluster_resources)

create_system-IsSystemOf_example : IsSystemOf json md5 secrets cluster_resources system
unfolding create_system ◌==◌ codes
create_system-IsSystemOf_example =
    create_system-IsSystemOf json md5 secrets cluster_resources system refl

abbrev flow_or : Option Flow → Flow
flow_or none = new_flow md5 [] [] [] []
flow_or (some f) = f

abbrev made_flow : Flow
made_flow = flow_or (flow_for_flow md5 secrets flow (cluster_output ∷ []) (output ∷ [])).0

flow_for_flow-All_example : All (IsOf (codes "web")) made_flow.matches
unfolding flow_for_flow ◌==◌ codes
flow_for_flow-All_example =
    flow_for_flow-All md5 secrets flow (cluster_output ∷ []) (output ∷ []) made_flow refl

abbrev flow_selection : List FlowMatch
flow_selection = select_match (codes "web") false nginx ∷ []

flow_for_flow-IsFlowOf_example :
    IsFlowOf md5 secrets flow
      (cluster_output ∷ [])
      (output ∷ [])
      flow_selection
      (flow_for_flow md5 secrets flow (cluster_output ∷ []) (output ∷ []))
unfolding flow_matches
flow_for_flow-IsFlowOf_example =
    flow_for_flow-IsFlowOf md5 secrets flow (cluster_output ∷ []) (output ∷ []) flow_selection refl

abbrev invalid_fault : Fault
invalid_fault = select_and_exclude (codes "web") (codes "bad")

skipped_flow_crashes_example :
    register_all json md5 secrets invalid_resources empty_builder ≡ crashed
unfolding flow_matches add_flows
skipped_flow_crashes_example =
    skipped_flow_crashes json md5 secrets invalid_resources empty_builder empty_builder [] []
      invalid_flow invalid_fault refl refl refl refl

invalid_flow_no_system_example : create_system json md5 secrets invalid_resources ≢ ok system
invalid_flow_no_system_example =
    invalid_flow_no_system json md5 secrets invalid_resources system
      (inl (inl (both_parts _ refl (inl (nginx, nginx, refl, refl)))))

abbrev cluster_selection : List FlowMatch
cluster_selection = selector_match (some ((codes "app", codes "nginx") ∷ [])) [] ∷ []

flow_for_cluster_flow-IsClusterFlowOf_example :
    IsClusterFlowOf md5 secrets cluster_flow
      (cluster_output ∷ [])
      cluster_selection
      (flow_for_cluster_flow md5 secrets cluster_flow (cluster_output ∷ []))
unfolding cluster_flow_matches selector_match
flow_for_cluster_flow-IsClusterFlowOf_example =
    flow_for_cluster_flow-IsClusterFlowOf md5 secrets cluster_flow (cluster_output ∷ [])
      cluster_selection refl

finish-All_example : Ended 2 system
finish-All_example = finish-All 2 system (omega arith)

abbrev port_field : Field Text
port_field = record {
  name = codes "Port";
  exported = true;
  tags = (codes "json", codes "port,omitempty") ∷ [];
  value = scalar (str (codes "24240"));
}

new_flat_directive-IsFlat_example :
    IsFlat
      (meta_of (codes "source"))
      (written_by json (port_field ∷ []) none)
      (new_flat_directive json (meta_of (codes "source")) (port_field ∷ []) none)
new_flat_directive-IsFlat_example =
    new_flat_directive-IsFlat json (meta_of (codes "source")) (port_field ∷ []) none

abbrev two_flows : List Flow
two_flows =
    new_flow md5 [] (codes "a") (codes "a") (codes "web")
    ∷ new_flow md5 [] (codes "b") (codes "b") (codes "web")
    ∷ []

add_flows-IsRegistered_example :
    IsRegistered json.marshal_map false empty_builder two_flows
      (add_flows json.marshal_map false (without_errors two_flows) empty_builder)
unfolding has_label new_flow new_system_builder ◌==◌ codes
add_flows-IsRegistered_example =
    add_flows-IsRegistered json.marshal_map false two_flows empty_builder (refl, (refl, tt))

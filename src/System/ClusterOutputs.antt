-- ===== src/System/ClusterOutputs.antt =====
-- What the references and the filters of a cluster flow become.
use logging_operator.Base.{
  Text, codes, ◌≡◌, refl, sym, subst, append-nil, Option, some, List, [], ◌++◌, map, ◌⊎◌, inl,
}
use logging_operator.Directive.{Directive}
use logging_operator.StringsMap.{SecretLoader}
use logging_operator.Flow.{FlowMatch, Flow, sort_namespaces, new_flow, with_filters, with_outputs}
use logging_operator.Resources.{ClusterFlow, ClusterOutput}
use logging_operator.System.{Fault, Made, filters_for_filters, global_output}
use logging_operator.System.Flows.{
  cluster_flow_matches, complete, cluster_flow_from, flow_for_cluster_flow,
}
use logging_operator.System.Outputs.{
  lefts, rights, filter_attempts, global_outputs-attempts, filters_from-attempts,
}

module _ {S : Type 0} (md5 : Text → Text) (secrets : Text → SecretLoader S) (flow : ClusterFlow S)
    (cs : List (ClusterOutput S)) where
  abbrev pub cluster_id : Text
  cluster_id = codes "clusterflow:" ++ flow.namespace ++ codes ":" ++ flow.name

  -- The references of a cluster flow
  abbrev pub cluster_attempts : List (Directive ⊎ Fault)
  cluster_attempts = map (global_output secrets cs cluster_id) flow.spec.global_output_refs

  abbrev pub cluster_filters : List (Directive ⊎ Fault)
  cluster_filters =
      filter_attempts 0 cluster_id flow.name (some (secrets flow.namespace)) flow.spec.filters

  -- What `FlowForClusterFlow` returns where the matches are valid.
  pub record IsClusterFlowOf (ms : List FlowMatch) (made : Made (Option Flow)) : Type 0 where
    pub result : Flow
    pub returned : made.0 ≡ some result
    pub outputs : result.outputs ≡ lefts cluster_attempts
    pub filters : result.filters ≡ lefts cluster_filters
    pub matches : result.matches ≡ map sort_namespaces ms
    pub errors : made.1 ≡ rights cluster_attempts ++ rights cluster_filters

  cluster_made_by :
      (ms : List FlowMatch) (globals fs : Made (List Directive))
      → globals ≡ (lefts cluster_attempts, rights cluster_attempts)
      → fs ≡ (lefts cluster_filters, rights cluster_filters)
      → IsClusterFlowOf ms
          (complete (new_flow md5 ms cluster_id flow.name flow.namespace) globals ([], []) fs)
  unfolding complete new_flow with_filters with_outputs
  cluster_made_by ms globals fs g f = record {
    result = record (new_flow md5 ms cluster_id flow.name flow.namespace) {
      outputs = globals.0 ++ [];
      filters = fs.0;
    };
    returned = refl;
    outputs = cc (g, append-nil globals.0);
    filters = cc (f);
    matches = refl;
    errors = cc (g, f);
  }

  -- For a ClusterFlow whose matches are valid, `FlowForClusterFlow` returns a flow with these
  -- matches, with the outputs that its references give and the filters that could be made, all in
  -- order; and an error for each reference and filter that failed, in order.
  pub flow_for_cluster_flow-IsClusterFlowOf :
      (ms : List FlowMatch)
      → cluster_flow_matches flow.namespace flow.name flow.spec.selectors flow.spec.match ≡ inl ms
      → IsClusterFlowOf ms (flow_for_cluster_flow md5 secrets flow cs)
  unfolding flow_for_cluster_flow filters_for_filters
  flow_for_cluster_flow-IsClusterFlowOf ms valid =
      subst (λ v. IsClusterFlowOf ms (cluster_flow_from md5 secrets flow cs v)) (sym valid)
        (cluster_made_by ms _ _
          (global_outputs-attempts secrets cluster_id cs flow.spec.global_output_refs)
          (filters_from-attempts 0 cluster_id flow.name (some (secrets flow.namespace))
            flow.spec.filters))

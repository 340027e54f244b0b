-- ===== src/System/Flows.antt =====
-- `FlowForFlow`, `FlowForClusterFlow`, `FlowForDefaultFlow` and `FlowForError` of system.go.
use logging_operator.Base.{
  Text, codes, false, Option, none, some, List, [], ◌∷◌, ◌++◌, ◌⊎◌, inl, inr,
}
use logging_operator.Base.Assoc.{Assoc}
use logging_operator.Directive.{meta_of, Directive}
use logging_operator.StringsMap.{SecretLoader}
use logging_operator.Flow.{FlowMatch, Flow, new_flow, with_filters, with_outputs}
use logging_operator.Resources.{
  Match, FlowResource, ClusterMatch, ClusterFlow, Output, ClusterOutput, Filter, find_by_name,
  create_output,
}
use logging_operator.System.{
  Fault, match_and_selectors, select_and_exclude, error_output_missing, Made, named_output,
  filters_for_filters, global_outputs, local_outputs, matches_of, cluster_matches_of,
}

selector_map : Option (Assoc Text) → Assoc Text
selector_map none = []
selector_map (some m) = m

-- The one match of a flow with selectors, or with none
unfoldable pub selector_match : Option (Assoc Text) → Text → FlowMatch
unfolding selector_map
selector_match selectors namespace = record {
  labels = selector_map selectors;
  namespaces = namespace ∷ [];
  container_names = [];
  hosts = [];
  negate = false;
}

unfoldable pub checked : Text → Text → Option (List FlowMatch) → List FlowMatch ⊎ Fault
checked namespace name none = inr (select_and_exclude namespace name)
checked namespace name (some ms) = inl ms

unfoldable pub flow_matches :
    Text → Text → Option (Assoc Text) → Option (List Match) → List FlowMatch ⊎ Fault
unfolding selector_match checked matches_of
flow_matches namespace name selectors none = inl (selector_match selectors namespace ∷ [])
flow_matches namespace name none (some ms) = checked namespace name (matches_of namespace ms)
flow_matches namespace name (some s) (some ms) = inr (match_and_selectors namespace name)

-- A cluster flow with selectors matches the namespace "".
unfoldable pub cluster_flow_matches :
    Text → Text → Option (Assoc Text) → Option (List ClusterMatch) → List FlowMatch ⊎ Fault
unfolding selector_match checked cluster_matches_of
cluster_flow_matches namespace name selectors none = inl (selector_match selectors [] ∷ [])
cluster_flow_matches namespace name none (some ms) = checked namespace name (cluster_matches_of ms)
cluster_flow_matches namespace name (some s) (some ms) = inr (match_and_selectors namespace name)

-- A flow with what was made for it; its errors do not keep it from being returned.
unfoldable pub complete :
    Flow
    → Made (List Directive)
    → Made (List Directive)
    → Made (List Directive)
    → Made (Option Flow)
unfolding with_outputs with_filters
complete flow (globals, errs) (locals, more) (filters, last) =
    (some (with_filters (with_outputs flow (globals ++ locals)) filters), errs ++ (more ++ last))

module _ {S : Type 0} (md5 : Text → Text) (secrets : Text → SecretLoader S) where
  -- The flow of the matches, where those are valid
  pub flow_from :
      FlowResource S
      → List (ClusterOutput S)
      → List (Output S)
      → List FlowMatch ⊎ Fault
      → Made (Option Flow)
  unfolding complete new_flow global_outputs local_outputs filters_for_filters
  flow_from flow cluster_outputs outputs (inr e) = (none, e ∷ [])
  flow_from flow cluster_outputs outputs (inl matches) =
      let flow_id = codes "flow:" ++ flow.namespace ++ codes ":" ++ flow.name in
      complete (new_flow md5 matches flow_id flow.name flow.namespace)
        (global_outputs secrets cluster_outputs flow_id flow.spec.global_output_refs)
        (local_outputs secrets outputs flow.namespace flow_id flow.spec.local_output_refs)
        (filters_for_filters flow_id flow.name (some (secrets flow.namespace)) flow.spec.filters)

  unfoldable pub flow_for_flow :
      FlowResource S → List (ClusterOutput S) → List (Output S) → Made (Option Flow)
  unfolding flow_matches flow_from
  flow_for_flow flow cluster_outputs outputs =
      flow_from flow cluster_outputs outputs
        (flow_matches flow.namespace flow.name flow.spec.selectors flow.spec.match)

  pub cluster_flow_from :
      ClusterFlow S → List (ClusterOutput S) → List FlowMatch ⊎ Fault → Made (Option Flow)
  unfolding complete new_flow global_outputs filters_for_filters
  cluster_flow_from flow cluster_outputs (inr e) = (none, e ∷ [])
  cluster_flow_from flow cluster_outputs (inl matches) =
      let flow_id = codes "clusterflow:" ++ flow.namespace ++ codes ":" ++ flow.name in
      complete (new_flow md5 matches flow_id flow.name flow.namespace)
        (global_outputs secrets cluster_outputs flow_id flow.spec.global_output_refs) ([], [])
        (filters_for_filters flow_id flow.name (some (secrets flow.namespace)) flow.spec.filters)

  unfoldable pub flow_for_cluster_flow : ClusterFlow S → List (ClusterOutput S) → Made (Option Flow)
  unfolding cluster_flow_matches cluster_flow_from
  flow_for_cluster_flow flow cluster_outputs =
      cluster_flow_from flow cluster_outputs
        (cluster_flow_matches flow.namespace flow.name flow.spec.selectors flow.spec.match)

  -- `FlowForDefaultFlow` of the namespace and name of a logging, its filters and global references
  unfoldable pub flow_for_default_flow :
      Text → Text → List (Filter S) → List Text → List (ClusterOutput S) → Made (Option Flow)
  unfolding complete new_flow global_outputs filters_for_filters
  flow_for_default_flow namespace name filters refs cluster_outputs =
      let flow_id = codes "logging:" ++ namespace ++ codes ":" ++ name in
      complete (new_flow md5 [] flow_id name namespace)
        (global_outputs secrets cluster_outputs flow_id refs) ([], [])
        (filters_for_filters flow_id name (some (secrets namespace)) filters)

-- The error flow before it has an output
unfoldable pub error_flow : Flow
error_flow = record {
  plugin_meta = record (meta_of (codes "label")) { tag = codes "@ERROR" };
  flow_id = [];
  filters = [];
  outputs = [];
  matches = [];
  flow_label = codes "@ERROR";
}

error_flow_to : Directive ⊎ Fault → Flow ⊎ Fault
unfolding error_flow with_outputs
error_flow_to (inl d) = inl (with_outputs error_flow (d ∷ []))
error_flow_to (inr e) = inr e

unfoldable pub flow_for_error :
    {S : Type 0} → (Text → SecretLoader S) → Text → List (ClusterOutput S) → Flow ⊎ Fault
unfolding error_flow_to named_output find_by_name create_output
flow_for_error secrets ref cluster_outputs = elim (find_by_name cluster_outputs ref) [
  | none ↦ inr (error_output_missing ref)
  | some c ↦ error_flow_to (
      named_output ref
        (create_output c.spec (codes "main-fluentd-error") (some (secrets c.namespace))))
]

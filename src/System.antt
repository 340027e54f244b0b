-- ===== src/System.antt =====
-- pkg/resources/model/system.go: the flows of the resources, and the system that they make. An error
-- is a list of faults, empty for nil; a `*Flow` is optional. The bodies of messages are not built.
pub mod Flows
pub mod Logging
pub mod Finish
pub mod Create
pub mod Build
pub mod Ends
pub mod Paths
pub mod Registered
pub mod Whole
pub mod Progress
pub mod Isolation
pub mod Skipped
pub mod Buffers
pub mod Outputs
pub mod ClusterOutputs
use logging_operator.Base.{
  ℕ, suc, ltb, Text, codes, decimal, Bool, true, false, Option, none, some, List, [], ◌∷◌, ◌++◌,
  map, ◌⊎◌, inl, inr,
}
use logging_operator.Directive.{Directive}
use logging_operator.StringsMap.{Json, SecretLoader, FieldFault}
use logging_operator.Flow.{FlowMatch, Flow, new_flow, with_filters, with_outputs}
use logging_operator.Router.{BuildFault}
use logging_operator.Resources.{
  Select, Match, FlowResource, ClusterSelect, ClusterMatch, ClusterFlow, Output, ClusterOutput,
  Filter, CreateFault, create_output, create_filter, find_by_name, find_by_namespaced_name,
}

-- Names are a namespace and a name, of a flow, or the name of a reference.
pub data Fault : Type 0 where
  match_and_selectors : Text → Text → Fault
  select_and_exclude : Text → Text → Fault
  filter_failed : ℕ → Text → CreateFault → Fault
  output_failed : Text → CreateFault → Fault
  clusteroutput_missing : Text → Fault
  output_missing : Text → Fault
  error_output_missing : Text → Fault
  root_input : List FieldFault → Fault
  null_output : List FieldFault → Fault
  build_failed : BuildFault → Fault

-- What is made, and the errors on the way.
abbrev pub Made : Type 0 → Type 0
Made A = A × List Fault

add_made : {A : Type 0} → A ⊎ Fault → Made (List A) → Made (List A)
add_made (inl a) (as', errs) = (a ∷ as', errs)
add_made (inr e) (as', errs) = (as', e ∷ errs)

pub named_filter : ℕ → Text → Directive ⊎ CreateFault → Directive ⊎ Fault
named_filter i flow_name (inl d) = inl d
named_filter i flow_name (inr e) = inr (filter_failed i flow_name e)

named_output : Text → Directive ⊎ CreateFault → Directive ⊎ Fault
named_output ref (inl d) = inl d
named_output ref (inr e) = inr (output_failed ref e)

module _ {S : Type 0} where
  pub filters_from :
      ℕ → Text → Text → Option (SecretLoader S) → List (Filter S) → Made (List Directive)
  unfolding add_made named_filter create_filter decimal
  filters_from i flow_id flow_name loader [] = ([], [])
  filters_from i flow_id flow_name loader (f ∷ fs) =
      add_made (named_filter i flow_name (create_filter f (flow_id ++ b':' ∷ decimal i) loader))
        (filters_from (suc i) flow_id flow_name loader fs)

  -- `filtersForFilters`
  filters_for_filters :
      Text → Text → Option (SecretLoader S) → List (Filter S) → Made (List Directive)
  unfolding filters_from
  filters_for_filters = filters_from 0

  pub global_output :
      (Text → SecretLoader S) → List (ClusterOutput S) → Text → Text → Directive ⊎ Fault
  unfolding named_output find_by_name create_output
  global_output secrets cluster_outputs flow_id ref = elim (find_by_name cluster_outputs ref) [
    | none ↦ inr (clusteroutput_missing ref)
    | some c ↦ named_output ref (
        create_output c.spec
          (flow_id ++ codes ":clusteroutput:" ++ c.namespace ++ codes ":" ++ c.name)
          (some (secrets c.namespace)))
  ]

  -- The loop over `GlobalOutputRefs`
  pub global_outputs :
      (Text → SecretLoader S) → List (ClusterOutput S) → Text → List Text → Made (List Directive)
  unfolding add_made global_output
  global_outputs secrets cluster_outputs flow_id [] = ([], [])
  global_outputs secrets cluster_outputs flow_id (ref ∷ refs) =
      add_made (global_output secrets cluster_outputs flow_id ref)
        (global_outputs secrets cluster_outputs flow_id refs)

  pub local_output :
      (Text → SecretLoader S) → List (Output S) → Text → Text → Text → Directive ⊎ Fault
  unfolding named_output find_by_namespaced_name create_output
  local_output secrets outputs namespace flow_id ref =
      elim (find_by_namespaced_name outputs namespace ref) [
        | none ↦ inr (output_missing ref)
        | some o ↦ named_output ref (
            create_output o.spec (flow_id ++ codes ":output:" ++ o.namespace ++ codes ":" ++ o.name)
              (some (secrets o.namespace)))
      ]

  -- The loop over `LocalOutputRefs`
  local_outputs :
      (Text → SecretLoader S) → List (Output S) → Text → Text → List Text → Made (List Directive)
  unfolding add_made local_output
  local_outputs secrets outputs namespace flow_id [] = ([], [])
  local_outputs secrets outputs namespace flow_id (ref ∷ refs) =
      add_made (local_output secrets outputs namespace flow_id ref)
        (local_outputs secrets outputs namespace flow_id refs)

-- One round of the loops over matches: a selection is not negated and an exclusion is, and `none`
-- stands for both in one match.
match_of : {A : Type 0} → (Bool → A → FlowMatch) → Option A → Option A → Option (List FlowMatch)
match_of make none none = some []
match_of make none (some e) = some (make true e ∷ [])
match_of make (some s) none = some (make false s ∷ [])
match_of make (some s) (some e) = none

then_matches : Option (List FlowMatch) → Option (List FlowMatch) → Option (List FlowMatch)
then_matches none rest = none
then_matches (some ms) none = none
then_matches (some ms) (some ns) = some (ms ++ ns)

-- A selection of a flow in its namespace
pub select_match : Text → Bool → Select → FlowMatch
select_match namespace negate s = record {
  labels = s.labels;
  namespaces = namespace ∷ [];
  container_names = s.container_names;
  hosts = s.hosts;
  negate = negate;
}

-- The loop over `Match`: `none` where a match has both parts.
matches_of : Text → List Match → Option (List FlowMatch)
unfolding select_match match_of then_matches
matches_of namespace [] = some []
matches_of namespace (m ∷ ms) =
    then_matches (match_of (select_match namespace) m.select m.exclude) (matches_of namespace ms)

cluster_match : Bool → ClusterSelect → FlowMatch
cluster_match negate s = record {
  labels = s.labels;
  namespaces = s.namespaces;
  container_names = s.container_names;
  hosts = s.hosts;
  negate = negate;
}

cluster_matches_of : List ClusterMatch → Option (List FlowMatch)
unfolding cluster_match match_of then_matches
cluster_matches_of [] = some []
cluster_matches_of (m ∷ ms) =
    then_matches (match_of cluster_match m.select m.exclude) (cluster_matches_of ms)

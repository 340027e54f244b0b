-- ===== src/Status.antt =====
-- pkg/resources/model/reconciler.go: the status of the resources. A status is kept beside its
-- resource; a pointer to an element is a change of the element in its list.
pub mod Validate
pub mod Search
pub mod Active
use logging_operator.Base.{
  ℕ, Text, codes, ◌==◌, is_empty, split_on, ◌&&◌, Bool, true, false, Option, none, some, List, [],
  ◌∷◌, ◌++◌, map, ◌⊎◌, inl, inr, if◌then◌else◌,
}
use logging_operator.Base.Lists.{length}
use logging_operator.StringsMap.{SecretLoader}
use logging_operator.Resources.{
  OutputSpec, SpecField, plain, unset, set, Plugin, FlowResource, ClusterFlow, Output,
  ClusterOutput,
}
use logging_operator.System.Logging.{Logging, LoggingResources}

-- A problem in a status; the texts are those of the messages.
pub data Problem : Type 0 where
  secret_problem : Text → Problem
  no_target : Problem
  multiple_targets : List Text → Problem
  use_global_refs : Problem
  use_global_and_local_refs : Problem
  dangling_global : Text → Problem
  dangling_local : Text → Problem

pub record Status : Type 0 where
  pub active : Bool
  pub problems : List Problem
  pub problems_count : ℕ

head_or_name : Text → List Text → Text
head_or_name name [] = name
head_or_name name ([] ∷ parts) = name
head_or_name name ((c ∷ n) ∷ parts) = c ∷ n

-- `jsonFieldName`: the first part of the tag, or the field's name
json_field_name : Text → Text → Text
unfolding head_or_name split_on
json_field_name name tag = head_or_name name (split_on b',' tag)

-- The errors of the secrets of one plugin
pub secret_problems : {S : Type 0} → SecretLoader S → List S → List Problem
secret_problems loader [] = []
secret_problems loader (s ∷ ss) = elim (loader s) [
  | inl loaded ↦ secret_problems loader ss
  | inr message ↦ secret_problem message ∷ secret_problems loader ss
]

-- The loop over the fields of the spec: the configured ones, and the problems of their secrets
configured : {S : Type 0} → SecretLoader S → OutputSpec S → List Text × List Problem
unfolding json_field_name secret_problems
configured loader [] = ([], [])
configured loader (set name tag plugin ∷ fs) =
    let rest = configured loader fs in
    (json_field_name name tag ∷ rest.0, secret_problems loader plugin.secrets ++ rest.1)
configured loader (f ∷ fs) = configured loader fs

target_problems : List Text → List Problem
target_problems [] = no_target ∷ []
target_problems (n ∷ []) = []
target_problems (n ∷ m ∷ ns) = multiple_targets (n ∷ m ∷ ns) ∷ []

-- `validateOutputSpec`
unfoldable pub validate_output_spec : {S : Type 0} → OutputSpec S → SecretLoader S → List Problem
unfolding configured target_problems
validate_output_spec spec loader =
    let found = configured loader spec in found.1 ++ target_problems found.0

pub status_of : Bool → List Problem → Status
status_of active problems = record {
  active = active;
  problems = problems;
  problems_count = length problems;
}

-- `FindByName` and the assignment to `Active` through its pointer; `none` is nil.
activate_by_name :
    {S : Type 0} → Text → List (ClusterOutput S × Status) → Option (List (ClusterOutput S × Status))
activate_by_name name [] = none
activate_by_name name ((c, st) ∷ cs) = elim (c.name == name) [
  | true ↦ some ((c, record st { active = true }) ∷ cs)
  | false ↦ elim (activate_by_name name cs) [ none ↦ none | some rest ↦ some ((c, st) ∷ rest) ]
]

activate_by_namespaced_name :
    {S : Type 0} → Text → Text → List (Output S × Status) → Option (List (Output S × Status))
activate_by_namespaced_name namespace name [] = none
activate_by_namespaced_name namespace name ((o, st) ∷ os) =
    elim (o.namespace == namespace && o.name == name) [
      | true ↦ some ((o, record st { active = true }) ∷ os)
      | false ↦ elim (activate_by_namespaced_name namespace name os) [
        | none ↦ none
        | some rest ↦ some ((o, st) ∷ rest)
      ]
    ]

-- What a loop over references knows: the outputs, whether one was found, and the problems.
pub record Refs (O : Type 0) : Type 0 where
  pub outputs : List O
  pub found : Bool
  pub problems : List Problem

after_ref : {O : Type 0} → Refs O → Problem → Option (List O) → Refs O
after_ref r dangling none = record r { problems = r.problems ++ dangling ∷ [] }
after_ref r dangling (some outputs) = record r { outputs = outputs; found = true }

pub global_refs :
    {S : Type 0} → List Text → Refs (ClusterOutput S × Status) → Refs (ClusterOutput S × Status)
unfolding after_ref activate_by_name
global_refs [] r = r
global_refs (ref ∷ refs) r =
    global_refs refs (after_ref r (dangling_global ref) (activate_by_name ref r.outputs))

pub local_refs :
    {S : Type 0} → Text → List Text → Refs (Output S × Status) → Refs (Output S × Status)
unfolding after_ref activate_by_namespaced_name
local_refs namespace [] r = r
local_refs namespace (ref ∷ refs) r =
    local_refs namespace refs
      (after_ref r (dangling_local ref) (activate_by_namespaced_name namespace ref r.outputs))

-- The problem of a flow that still has only the deprecated references; its text says what to use
-- instead.
unfoldable pub deprecated : Problem → List Text → List Text → List Problem
deprecated problem [] (o ∷ os) = problem ∷ []
deprecated problem refs output_refs = []

-- The statuses that the reconciler computes, each beside its resource
pub record Statuses (S : Type 0) : Type 0 where
  pub cluster_outputs : List (ClusterOutput S × Status)
  pub outputs : List (Output S × Status)
  pub cluster_flows : List (ClusterFlow S × Status)
  pub flows : List (FlowResource S × Status)

module _ {S : Type 0} (secrets : Text → SecretLoader S) where
  cluster_output_status : Logging S → ClusterOutput S → ClusterOutput S × Status
  unfolding status_of validate_output_spec
  cluster_output_status logging c = (
    c,
    status_of (c.name == logging.error_output_ref)
        (validate_output_spec c.spec (secrets c.namespace)),
  )

  output_status : Output S → Output S × Status
  unfolding status_of validate_output_spec
  output_status o = (o, status_of false (validate_output_spec o.spec (secrets o.namespace)))

  -- A round of the loop over cluster flows
  pub reconcile_cluster_flow : ClusterFlow S → Statuses S → Statuses S
  unfolding global_refs status_of deprecated
  reconcile_cluster_flow flow t =
      let r = global_refs flow.spec.global_output_refs (record {
        outputs = t.cluster_outputs;
        found = false;
        problems = deprecated use_global_refs flow.spec.global_output_refs flow.spec.output_refs;
      }) in
      record t {
        cluster_outputs = r.outputs;
        cluster_flows = t.cluster_flows ++ (flow, status_of r.found r.problems) ∷ [];
      }

  -- A round of the loop over flows
  pub reconcile_flow : FlowResource S → Statuses S → Statuses S
  unfolding global_refs local_refs status_of deprecated
  reconcile_flow flow t =
      let g = global_refs flow.spec.global_output_refs (record {
        outputs = t.cluster_outputs;
        found = false;
        problems =
            deprecated use_global_and_local_refs
              (flow.spec.local_output_refs ++ flow.spec.global_output_refs) flow.spec.output_refs;
      }) in
      let l =
        local_refs flow.namespace flow.spec.local_output_refs
          (record { outputs = t.outputs; found = g.found; problems = g.problems }) in
      record t {
        cluster_outputs = g.outputs;
        outputs = l.outputs;
        flows = t.flows ++ (flow, status_of l.found l.problems) ∷ [];
      }

  reconcile_cluster_flows : List (ClusterFlow S) → Statuses S → Statuses S
  unfolding reconcile_cluster_flow
  reconcile_cluster_flows [] t = t
  reconcile_cluster_flows (f ∷ fs) t = reconcile_cluster_flows fs (reconcile_cluster_flow f t)

  reconcile_flows : List (FlowResource S) → Statuses S → Statuses S
  unfolding reconcile_flow
  reconcile_flows [] t = t
  reconcile_flows (f ∷ fs) t = reconcile_flows fs (reconcile_flow f t)

  -- The statuses before the patches
  reconcile : LoggingResources S → Statuses S
  unfolding cluster_output_status output_status reconcile_cluster_flows reconcile_flows
  reconcile r = reconcile_flows r.flows (
      reconcile_cluster_flows r.cluster_flows (record {
        cluster_outputs = map (cluster_output_status r.logging) r.cluster_outputs;
        outputs = map output_status r.outputs;
        cluster_flows = [];
        flows = [];
      }))

-- The last loop: objects are patched unless their patch is empty, and the errors are collected.
send_patches : {O : Type 0} → (O → Bool) → (O → Option Text) → List O → List Text
send_patches is_empty_patch patch [] = []
send_patches is_empty_patch patch (o ∷ os) =
    let rest = send_patches is_empty_patch patch os in
    if is_empty_patch o then rest else elim (patch o) [ none ↦ rest | some e ↦ e ∷ rest ]

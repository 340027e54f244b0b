-- ===== src/Status/Active.antt =====
-- When a flow is active, and which problems its references give.
use logging_operator.Base.{
  Text, ◌≡◌, refl, ap, ◌∙◌, Bool, true, false, not, ◌&&◌, ◌||◌, List, [], ◌∷◌, ◌++◌, append_assoc,
  if◌then◌else◌,
}
use logging_operator.Status.Search.{
  dangling, any, has_cluster_output, has_output, global_refs-IsCount, local_refs-IsCount,
}
use logging_operator.StringsMap.{SecretLoader}
use logging_operator.Resources.{ClusterFlow, FlowResource, Output, ClusterOutput}
use logging_operator.Status.{
  Problem, dangling_global, dangling_local, Status, status_of, Refs, global_refs, local_refs,
  use_global_refs, use_global_and_local_refs, deprecated, Statuses, reconcile_flow,
  reconcile_cluster_flow,
}

with_status :
    {A : Type 0} (fs : List (A × Status)) (f : A) {b c : Bool} {ps qs : List Problem}
    → b ≡ c
    → ps ≡ qs
    → fs ++ (f, status_of b ps) ∷ [] ≡ fs ++ (f, status_of c qs) ∷ []
with_status fs f e h = cc (e, h)

abbrev no_refs : List Text → Bool
no_refs [] = true
no_refs (r ∷ rs) = false

-- The problem, if there are only references of the old form
abbrev pub old_form : Problem → (refs output_refs : List Text) → List Problem
old_form problem refs output_refs =
    if no_refs refs && not (no_refs output_refs) then problem ∷ [] else []

deprecated-old_form :
    (problem : Problem) (refs output_refs : List Text)
    → deprecated problem refs output_refs ≡ old_form problem refs output_refs
unfolding deprecated
deprecated-old_form problem [] [] = refl
deprecated-old_form problem [] (o ∷ os) = refl
deprecated-old_form problem (r ∷ rs) os = refl

-- The status that a Flow resource should have, given the outputs that exist
abbrev pub expected_status :
    {S : Type 0}
    → FlowResource S
    → List (ClusterOutput S × Status)
    → List (Output S × Status)
    → Status
expected_status flow cs os =
    status_of
      (any (has_cluster_output cs) flow.spec.global_output_refs
        || any (has_output flow.namespace os) flow.spec.local_output_refs)
      (old_form use_global_and_local_refs
          (flow.spec.local_output_refs ++ flow.spec.global_output_refs) flow.spec.output_refs
        ++ (dangling dangling_global (has_cluster_output cs) flow.spec.global_output_refs
            ++ dangling dangling_local (has_output flow.namespace os) flow.spec.local_output_refs))

-- The reconciler gives a Flow resource one status: active if one of its references, global or
-- local, names an output that exists, and with a problem for each reference that names none, in
-- order, behind the one for having only references of the old form, which says what to use.
pub reconcile_flow-status :
    {S : Type 0} (secrets : Text → SecretLoader S) (flow : FlowResource S) (t : Statuses S)
    → (reconcile_flow secrets flow t).flows
      ≡ t.flows ++ (flow, expected_status flow t.cluster_outputs t.outputs) ∷ []
unfolding reconcile_flow
reconcile_flow-status {S} secrets flow t =
    let problems =
      deprecated use_global_and_local_refs
        (flow.spec.local_output_refs ++ flow.spec.global_output_refs) flow.spec.output_refs in
    let old =
      deprecated-old_form use_global_and_local_refs
        (flow.spec.local_output_refs ++ flow.spec.global_output_refs) flow.spec.output_refs in
    let start : Refs (ClusterOutput S × Status) = record {
      outputs = t.cluster_outputs;
      found = false;
      problems = problems;
    } in
    let g = global_refs-IsCount flow.spec.global_output_refs start in
    let middle : Refs (Output S × Status) = record {
      outputs = t.outputs;
      found = (global_refs flow.spec.global_output_refs start).found;
      problems = (global_refs flow.spec.global_output_refs start).problems;
    } in
    let l = local_refs-IsCount flow.namespace flow.spec.local_output_refs middle in
    let flag : (local_refs flow.namespace flow.spec.local_output_refs middle).found ≡ (
        any (has_cluster_output t.cluster_outputs) flow.spec.global_output_refs
        || any (has_output flow.namespace t.outputs) flow.spec.local_output_refs) =
      l.flag
      ∙ ap (λ b. b || any (has_output flow.namespace t.outputs) flow.spec.local_output_refs)
          g.flag in
    let missing =
      dangling dangling_local (has_output flow.namespace t.outputs) flow.spec.local_output_refs in
    let listed = l.listed ∙ (ap (λ ps. ps ++ missing) g.listed ∙ append_assoc problems _ missing) in
    with_status t.flows flow flag (
      listed
      ∙ ap
          (λ ps.
            ps
            ++ (dangling dangling_global (has_cluster_output t.cluster_outputs)
                  flow.spec.global_output_refs
                ++ missing))
          old)

-- The status that a ClusterFlow resource should have, given the cluster outputs that exist
abbrev pub expected_cluster_status :
    {S : Type 0} → ClusterFlow S → List (ClusterOutput S × Status) → Status
expected_cluster_status flow cs =
    status_of (any (has_cluster_output cs) flow.spec.global_output_refs) (
      old_form use_global_refs flow.spec.global_output_refs flow.spec.output_refs
      ++ dangling dangling_global (has_cluster_output cs) flow.spec.global_output_refs)

-- The reconciler gives a ClusterFlow resource one status: active if one of its global references
-- names a cluster output that exists, and with a problem for each reference that names none, in
-- order, behind the one for having only references of the old form, which says what to use.
pub reconcile_cluster_flow-status :
    {S : Type 0} (secrets : Text → SecretLoader S) (flow : ClusterFlow S) (t : Statuses S)
    → (reconcile_cluster_flow secrets flow t).cluster_flows
      ≡ t.cluster_flows ++ (flow, expected_cluster_status flow t.cluster_outputs) ∷ []
unfolding reconcile_cluster_flow
reconcile_cluster_flow-status {S} secrets flow t =
    let start : Refs (ClusterOutput S × Status) = record {
      outputs = t.cluster_outputs;
      found = false;
      problems = deprecated use_global_refs flow.spec.global_output_refs flow.spec.output_refs;
    } in
    let g = global_refs-IsCount flow.spec.global_output_refs start in
    with_status t.cluster_flows flow g.flag (
      g.listed
      ∙ ap
          (λ ps.
            ps
            ++ dangling dangling_global (has_cluster_output t.cluster_outputs)
                flow.spec.global_output_refs)
          (deprecated-old_form use_global_refs flow.spec.global_output_refs flow.spec.output_refs))

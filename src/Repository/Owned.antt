-- ===== src/Repository/Owned.antt =====
-- What is collected for a logging belongs to it.
use logging_operator.Base.{Text, ◌==◌, ◌≡◌, true, List, [], ◌∷◌, ◌⊎◌, inl, inr, Bool-cases}
use logging_operator.Base.Lists.{All, All-append}
use logging_operator.Base.Sort.{sort_by, sort_strings}
use logging_operator.Resources.{ClusterFlow, ClusterOutput}
use logging_operator.System.Logging.{Logging, LoggingResources}
use logging_operator.Repository.{
  Reader, Keyed, with_ref, select_items, keyed_flow, keyed_output, keyed_cluster_flow,
  keyed_cluster_output, cluster_flows_for, cluster_outputs_for, cluster_resource_list_opts,
  flows_in_namespace_for, outputs_in_namespace_for, items_of, namespaced, with_namespaces,
  resources_in, logging_resources_for, less_by_namespaced_name,
}

-- The item refers to the logging of this reference.
abbrev pub IsOwnedBy : {A : Type 0} → Keyed A → Text → A → Type 0
IsOwnedBy k ref i = (k.logging_ref i == ref) ≡ true

module _ {A : Type 0} (k : Keyed A) (ref : Text) where
  with_ref-All : (l : List A) → All (IsOwnedBy k ref) (with_ref k ref l)
  unfolding with_ref
  with_ref-All [] = tt
  with_ref-All (i ∷ l) = elim (Bool-cases (k.logging_ref i == ref)) [
    | inl p ↦ rw (All, p) (p, with_ref-All l)
    | inr p ↦ rw (All, p) (with_ref-All l)
  ]

  select_items-All : (r : List A ⊎ Text) → All (IsOwnedBy k ref) (items_of (select_items k ref r))
  unfolding items_of select_items
  select_items-All (inl items) = with_ref-All (sort_by (less_by_namespaced_name k) items)
  select_items-All (inr e) = tt

-- All resources refer to the logging of this reference.
pub record IsOwned {S : Type 0} (ref : Text) (r : LoggingResources S) : Type 0 where
  pub flows : All (IsOwnedBy keyed_flow ref) r.flows
  pub outputs : All (IsOwnedBy keyed_output ref) r.outputs
  pub cluster_flows : All (IsOwnedBy keyed_cluster_flow ref) r.cluster_flows
  pub cluster_outputs : All (IsOwnedBy keyed_cluster_output ref) r.cluster_outputs

module _ {S : Type 0} (client : Reader S) (logging : Logging S) where
  namespaced-flows :
      (nss : List Text)
      → All (IsOwnedBy keyed_flow logging.logging_ref) (namespaced client logging nss).0
  unfolding namespaced flows_in_namespace_for
  namespaced-flows [] = tt
  namespaced-flows (ns ∷ nss) =
      All-append (IsOwnedBy keyed_flow logging.logging_ref) _ _
        (select_items-All keyed_flow logging.logging_ref (client.list_flows ns))
        (namespaced-flows nss)

  namespaced-outputs :
      (nss : List Text)
      → All (IsOwnedBy keyed_output logging.logging_ref) (namespaced client logging nss).1
  unfolding namespaced outputs_in_namespace_for
  namespaced-outputs [] = tt
  namespaced-outputs (ns ∷ nss) =
      All-append (IsOwnedBy keyed_output logging.logging_ref) _ _
        (select_items-All keyed_output logging.logging_ref (client.list_outputs ns))
        (namespaced-outputs nss)

  in_namespaces :
      (cfs : List (ClusterFlow S)) (cos : List (ClusterOutput S)) (errs : List Text)
      (nss : List Text ⊎ Text)
      → All (IsOwnedBy keyed_cluster_flow logging.logging_ref) cfs
      → All (IsOwnedBy keyed_cluster_output logging.logging_ref) cos
      → IsOwned logging.logging_ref (resources_in client logging cfs cos errs nss).0
  unfolding resources_in with_namespaces
  in_namespaces cfs cos errs (inl nss) f o = record {
    flows = namespaced-flows (sort_strings nss);
    outputs = namespaced-outputs (sort_strings nss);
    cluster_flows = f;
    cluster_outputs = o;
  }
  in_namespaces cfs cos errs (inr e) f o = record {
    flows = tt;
    outputs = tt;
    cluster_flows = f;
    cluster_outputs = o;
  }

  -- Whatever the API server returns, errors included, each flow, output, cluster flow and cluster
  -- output that is collected for a logging has the logging's own reference.
  pub logging_resources_for-IsOwned :
      IsOwned logging.logging_ref (logging_resources_for client logging).0
  unfolding logging_resources_for cluster_flows_for cluster_outputs_for
  logging_resources_for-IsOwned =
      in_namespaces _ _ _ _
        (select_items-All keyed_cluster_flow logging.logging_ref
          (client.list_cluster_flows (cluster_resource_list_opts logging)))
        (select_items-All keyed_cluster_output logging.logging_ref
          (client.list_cluster_outputs (cluster_resource_list_opts logging)))

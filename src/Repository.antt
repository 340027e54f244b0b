-- ===== src/Repository.antt =====
-- pkg/resources/model/repository.go: the resources that belong to a logging. The client of the API
-- server is a parameter. The namespaces to watch are sorted in place, also in the logging.
pub mod Select
pub mod Owned
use logging_operator.Base.{
  Text, ◌==◌, text_lt, Bool, true, false, not, Option, none, some, List, [], ◌∷◌, ◌++◌, map, ◌⊎◌,
  inl, inr, if◌then◌else◌,
}
use logging_operator.Base.Sort.{sort_by, sort_strings}
use logging_operator.Resources.{FlowResource, ClusterFlow, Output, ClusterOutput}
use logging_operator.System.Logging.{Logging, LoggingResources}

-- `client.Reader.List`: in a namespace, or in all of them; an error is its message.
pub record Reader (S : Type 0) : Type 0 where
  pub list_cluster_flows : Option Text → List (ClusterFlow S) ⊎ Text
  pub list_cluster_outputs : Option Text → List (ClusterOutput S) ⊎ Text
  pub list_flows : Text → List (FlowResource S) ⊎ Text
  pub list_outputs : Text → List (Output S) ⊎ Text
  pub list_namespaces : List Text ⊎ Text

-- What the code reads of an item: namespace, name and reference to a logging
pub record Keyed (A : Type 0) : Type 0 where
  pub namespace : A → Text
  pub name : A → Text
  pub logging_ref : A → Text

module _ {A : Type 0} (k : Keyed A) where
  pub less_by_namespaced_name : A → A → Bool
  unfolding text_lt
  less_by_namespaced_name a b =
      if not (k.namespace a == k.namespace b)
      then text_lt (k.namespace a) (k.namespace b)
      else text_lt (k.name a) (k.name b)

  -- The loop that keeps the items of a logging
  with_ref : Text → List A → List A
  with_ref ref [] = []
  with_ref ref (i ∷ is) =
      let rest = with_ref ref is in if k.logging_ref i == ref then i ∷ rest else rest

  pub select_items : Text → List A ⊎ Text → List A ⊎ Text
  unfolding with_ref sort_by less_by_namespaced_name
  select_items ref (inr e) = inr e
  select_items ref (inl items) = inl (with_ref ref (sort_by less_by_namespaced_name items))

-- `clusterResourceListOpts`: the namespace to which the list is restricted
cluster_resource_list_opts : {S : Type 0} → Logging S → Option Text
cluster_resource_list_opts logging =
    if not logging.allow_cluster_resources_from_all_namespaces
    then some logging.control_namespace
    else none

abbrev pub keyed_flow : {S : Type 0} → Keyed (FlowResource S)
keyed_flow = record {
  namespace = λ f. f.namespace;
  name = λ f. f.name;
  logging_ref = λ f. f.spec.logging_ref;
}

abbrev pub keyed_cluster_flow : {S : Type 0} → Keyed (ClusterFlow S)
keyed_cluster_flow = record {
  namespace = λ f. f.namespace;
  name = λ f. f.name;
  logging_ref = λ f. f.spec.logging_ref;
}

abbrev pub keyed_output : {S : Type 0} → Keyed (Output S)
keyed_output = record {
  namespace = λ o. o.namespace;
  name = λ o. o.name;
  logging_ref = λ o. o.logging_ref;
}

abbrev pub keyed_cluster_output : {S : Type 0} → Keyed (ClusterOutput S)
keyed_cluster_output = record {
  namespace = λ o. o.namespace;
  name = λ o. o.name;
  logging_ref = λ o. o.logging_ref;
}

module _ {S : Type 0} (client : Reader S) (logging : Logging S) where
  cluster_flows_for : List (ClusterFlow S) ⊎ Text
  unfolding select_items cluster_resource_list_opts
  cluster_flows_for =
      select_items keyed_cluster_flow logging.logging_ref
        (client.list_cluster_flows (cluster_resource_list_opts logging))

  cluster_outputs_for : List (ClusterOutput S) ⊎ Text
  unfolding select_items cluster_resource_list_opts
  cluster_outputs_for =
      select_items keyed_cluster_output logging.logging_ref
        (client.list_cluster_outputs (cluster_resource_list_opts logging))

  flows_in_namespace_for : Text → List (FlowResource S) ⊎ Text
  unfolding select_items
  flows_in_namespace_for namespace =
      select_items keyed_flow logging.logging_ref (client.list_flows namespace)

  outputs_in_namespace_for : Text → List (Output S) ⊎ Text
  unfolding select_items
  outputs_in_namespace_for namespace =
      select_items keyed_output logging.logging_ref (client.list_outputs namespace)

-- A list that could not be read is empty, beside its error.
items_of : {A : Type 0} → List A ⊎ Text → List A
items_of (inl items) = items
items_of (inr e) = []

errors_of : {A : Type 0} → List A ⊎ Text → List Text
errors_of (inl items) = []
errors_of (inr e) = e ∷ []

module _ {S : Type 0} (client : Reader S) (logging : Logging S) where
  -- The loop over the namespaces
  namespaced : List Text → List (FlowResource S) × List (Output S) × List Text
  unfolding items_of errors_of flows_in_namespace_for outputs_in_namespace_for
  namespaced [] = ([], [], [])
  namespaced (ns ∷ nss) =
      let flows = flows_in_namespace_for client logging ns in
      let outputs = outputs_in_namespace_for client logging ns in
      let rest = namespaced nss in
      (
        items_of flows ++ rest.0,
        items_of outputs ++ rest.1,
        errors_of flows ++ (errors_of outputs ++ rest.2),
      )

  with_namespaces :
      List (ClusterFlow S)
      → List (ClusterOutput S)
      → List Text
      → List Text
      → LoggingResources S × List Text
  unfolding namespaced sort_strings
  with_namespaces cluster_flows cluster_outputs errs namespaces =
      let found = namespaced (sort_strings namespaces) in
      (
        record {
          logging = logging;
          outputs = found.1;
          flows = found.0;
          cluster_outputs = cluster_outputs;
          cluster_flows = cluster_flows;
        },
        errs ++ found.2,
      )

  -- The namespaces to watch; none stands for all that there are.
  watched : List Text → List Text ⊎ Text
  watched [] = client.list_namespaces
  watched (ns ∷ nss) = inl (ns ∷ nss)

  resources_in :
      List (ClusterFlow S)
      → List (ClusterOutput S)
      → List Text
      → List Text ⊎ Text
      → LoggingResources S × List Text
  unfolding with_namespaces
  resources_in cluster_flows cluster_outputs errs (inl namespaces) =
      with_namespaces cluster_flows cluster_outputs errs namespaces
  resources_in cluster_flows cluster_outputs errs (inr e) = (
    record {
      logging = logging;
      outputs = [];
      flows = [];
      cluster_outputs = cluster_outputs;
      cluster_flows = cluster_flows;
    },
    errs ++ e ∷ [],
  )

  -- `LoggingResourcesFor`: the resources, and the errors on the way
  pub logging_resources_for : LoggingResources S × List Text
  unfolding items_of errors_of cluster_flows_for cluster_outputs_for watched resources_in
  logging_resources_for =
      let cluster_flows = cluster_flows_for client logging in
      let cluster_outputs = cluster_outputs_for client logging in
      resources_in (items_of cluster_flows) (items_of cluster_outputs)
        (errors_of cluster_flows ++ errors_of cluster_outputs) (watched logging.watch_namespaces)

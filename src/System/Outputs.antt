-- ===== src/System/Outputs.antt =====
-- What the references and the filters of a flow become: the ones that fail are errors, in order.
use logging_operator.Base.{
  ℕ, suc, Text, codes, decimal, ◌≡◌, refl, sym, ap, subst, Option, some, List, [], ◌∷◌, ◌++◌, map,
  ◌⊎◌, inl, inr, append_assoc,
}
use logging_operator.Base.Lists.{length}
use logging_operator.Directive.{Directive}
use logging_operator.StringsMap.{SecretLoader}
use logging_operator.Flow.{FlowMatch, Flow, sort_namespaces, new_flow, with_filters, with_outputs}
use logging_operator.Resources.{FlowResource, ClusterOutput, Output, Filter, create_filter}
use logging_operator.System.{
  Fault, Made, add_made, named_filter, filters_from, filters_for_filters, global_output,
  global_outputs, local_output, local_outputs,
}
use logging_operator.System.Flows.{flow_matches, complete, flow_from, flow_for_flow}

module _ {A : Type 0} where
  -- What succeeded, and what failed
  abbrev pub lefts : List (A ⊎ Fault) → List A
  lefts [] = []
  lefts (inl a ∷ rs) = a ∷ lefts rs
  lefts (inr e ∷ rs) = lefts rs

  abbrev pub rights : List (A ⊎ Fault) → List Fault
  rights [] = []
  rights (inl a ∷ rs) = rights rs
  rights (inr e ∷ rs) = e ∷ rights rs

  lefts-append : (rs ss : List (A ⊎ Fault)) → lefts (rs ++ ss) ≡ lefts rs ++ lefts ss
  lefts-append [] ss = refl
  lefts-append (inl a ∷ rs) ss = ap (◌∷◌ a) (lefts-append rs ss)
  lefts-append (inr e ∷ rs) ss = lefts-append rs ss

  rights-append : (rs ss : List (A ⊎ Fault)) → rights (rs ++ ss) ≡ rights rs ++ rights ss
  rights-append [] ss = refl
  rights-append (inl a ∷ rs) ss = rights-append rs ss
  rights-append (inr e ∷ rs) ss = ap (◌∷◌ e) (rights-append rs ss)

  -- With no failure there is a result for each attempt.
  length-lefts : (rs : List (A ⊎ Fault)) → rights rs ≡ [] → length (lefts rs) ≡ length rs
  length-lefts [] h = refl
  length-lefts (inl a ∷ rs) h = ap suc (length-lefts rs h)
  length-lefts (inr e ∷ rs) h = absurd (cc)

  add_made_parts :
      (r : A ⊎ Fault) (rs : List (A ⊎ Fault)) (m : Made (List A))
      → m ≡ (lefts rs, rights rs)
      → add_made r m ≡ (lefts (r ∷ rs), rights (r ∷ rs))
  unfolding add_made
  add_made_parts (inl a) rs m h = cc
  add_made_parts (inr e) rs m h = cc

module _ {S : Type 0} where
  module _ (secrets : Text → SecretLoader S) (flow_id : Text) where
    pub global_outputs-attempts :
        (cs : List (ClusterOutput S)) (refs : List Text)
        → global_outputs secrets cs flow_id refs ≡ (
          lefts (map (global_output secrets cs flow_id) refs),
          rights (map (global_output secrets cs flow_id) refs),
        )
    unfolding global_outputs
    global_outputs-attempts cs [] = refl
    global_outputs-attempts cs (ref ∷ refs) =
        add_made_parts (global_output secrets cs flow_id ref)
          (map (global_output secrets cs flow_id) refs) _ (global_outputs-attempts cs refs)

    local_outputs-attempts :
        (os : List (Output S)) (namespace : Text) (refs : List Text)
        → local_outputs secrets os namespace flow_id refs ≡ (
          lefts (map (local_output secrets os namespace flow_id) refs),
          rights (map (local_output secrets os namespace flow_id) refs),
        )
    unfolding local_outputs
    local_outputs-attempts os namespace [] = refl
    local_outputs-attempts os namespace (ref ∷ refs) =
        add_made_parts (local_output secrets os namespace flow_id ref)
          (map (local_output secrets os namespace flow_id) refs) _
          (local_outputs-attempts os namespace refs)

  -- The filters, each with its number behind the flow's id
  abbrev pub filter_attempts :
      ℕ → Text → Text → Option (SecretLoader S) → List (Filter S) → List (Directive ⊎ Fault)
  filter_attempts i flow_id flow_name loader [] = []
  filter_attempts i flow_id flow_name loader (f ∷ fs) =
      named_filter i flow_name (create_filter f (flow_id ++ b':' ∷ decimal i) loader)
      ∷ filter_attempts (suc i) flow_id flow_name loader fs

  pub filters_from-attempts :
      (i : ℕ) (flow_id flow_name : Text) (loader : Option (SecretLoader S)) (fs : List (Filter S))
      → filters_from i flow_id flow_name loader fs ≡ (
        lefts (filter_attempts i flow_id flow_name loader fs),
        rights (filter_attempts i flow_id flow_name loader fs),
      )
  unfolding filters_from
  filters_from-attempts i flow_id flow_name loader [] = refl
  filters_from-attempts i flow_id flow_name loader (f ∷ fs) =
      add_made_parts
        (named_filter i flow_name (create_filter f (flow_id ++ b':' ∷ decimal i) loader))
        (filter_attempts (suc i) flow_id flow_name loader fs) _
        (filters_from-attempts (suc i) flow_id flow_name loader fs)

  abbrev pub id_of : FlowResource S → Text
  id_of flow = codes "flow:" ++ flow.namespace ++ codes ":" ++ flow.name

  module _ (md5 : Text → Text) (secrets : Text → SecretLoader S) (flow : FlowResource S)
      (cs : List (ClusterOutput S)) (os : List (Output S)) where
    -- The references of a flow, the global ones first
    abbrev pub output_attempts : List (Directive ⊎ Fault)
    output_attempts =
        map (global_output secrets cs (id_of flow)) flow.spec.global_output_refs
        ++ map (local_output secrets os flow.namespace (id_of flow)) flow.spec.local_output_refs

    abbrev pub flow_filters : List (Directive ⊎ Fault)
    flow_filters =
        filter_attempts 0 (id_of flow) flow.name (some (secrets flow.namespace)) flow.spec.filters

    -- What `FlowForFlow` returns where the matches of the flow are valid.
    pub record IsFlowOf (ms : List FlowMatch) (made : Made (Option Flow)) : Type 0 where
      pub result : Flow
      pub returned : made.0 ≡ some result
      pub outputs : result.outputs ≡ lefts output_attempts
      pub filters : result.filters ≡ lefts flow_filters
      pub matches : result.matches ≡ map sort_namespaces ms
      pub errors : made.1 ≡ rights output_attempts ++ rights flow_filters

    made_by :
        (ms : List FlowMatch) (globals locals fs : Made (List Directive))
        → globals ≡ (
          lefts (map (global_output secrets cs (id_of flow)) flow.spec.global_output_refs),
          rights (map (global_output secrets cs (id_of flow)) flow.spec.global_output_refs),
        )
        → locals ≡ (
          lefts (
              map
                (local_output secrets os flow.namespace (id_of flow))
                flow.spec.local_output_refs),
          rights (
              map
                (local_output secrets os flow.namespace (id_of flow))
                flow.spec.local_output_refs),
        )
        → fs ≡ (lefts flow_filters, rights flow_filters)
        → IsFlowOf ms
            (complete (new_flow md5 ms (id_of flow) flow.name flow.namespace) globals locals fs)
    unfolding complete new_flow with_filters with_outputs
    made_by ms globals locals fs g l f =
        let xs = map (global_output secrets cs (id_of flow)) flow.spec.global_output_refs in
        let ys =
          map (local_output secrets os flow.namespace (id_of flow)) flow.spec.local_output_refs in
        record {
          result = record (new_flow md5 ms (id_of flow) flow.name flow.namespace) {
            outputs = globals.0 ++ locals.0;
            filters = fs.0;
          };
          returned = refl;
          outputs = cc (lefts-append xs ys, g, l);
          filters = cc (f);
          matches = refl;
          errors = cc (
            rights-append xs ys,
            g,
            l,
            f,
            append_assoc (rights xs) (rights ys) (rights flow_filters),
          );
        }

    -- For a flow whose matches are valid, `FlowForFlow` returns a flow with these matches, with
    -- the outputs that its references give, the global ones first, and with the filters that could
    -- be made, all in order; and an error for each reference and filter that failed, in order.
    pub flow_for_flow-IsFlowOf :
        (ms : List FlowMatch)
        → flow_matches flow.namespace flow.name flow.spec.selectors flow.spec.match ≡ inl ms
        → IsFlowOf ms (flow_for_flow md5 secrets flow cs os)
    unfolding flow_for_flow filters_for_filters
    flow_for_flow-IsFlowOf ms valid =
        subst (λ v. IsFlowOf ms (flow_from md5 secrets flow cs os v)) (sym valid)
          (made_by ms _ _ _
            (global_outputs-attempts secrets (id_of flow) cs flow.spec.global_output_refs)
            (local_outputs-attempts secrets (id_of flow) os flow.namespace
              flow.spec.local_output_refs)
            (filters_from-attempts 0 (id_of flow) flow.name (some (secrets flow.namespace))
              flow.spec.filters))

-- ===== src/System/Skipped.antt =====
-- `skipInvalidResources`: what happens to a flow that could not be made. Invalid matches of resources.
use mathlib.Core.List.{map-append, tail-eq_of_cons-eq}
use logging_operator.System.Build.{flow_of, >>=-eq-ok}
use logging_operator.System.Registered.{made_flows}
use logging_operator.System.Whole.{create_system-IsSystemOf}
use logging_operator.System.Isolation.{not_made}
use logging_operator.Base.{
  Text, ◌≡◌, ◌≢◌, refl, ap, ◌∙◌, true, Option, none, some, List, [], ◌∷◌, ◌++◌, map, ◌⊎◌, inl, inr,
}
use logging_operator.Base.Assoc.{Assoc}
use logging_operator.StringsMap.{Json, SecretLoader}
use logging_operator.Flow.{FlowMatch, Flow}
use logging_operator.Resources.{Match, ClusterMatch, FlowResource, ClusterFlow}
use logging_operator.Router.{SystemBuilder, register_flow, System}
use logging_operator.Base.Lists.{Has, Has-map, Has-append_left, Has-append_right}
use logging_operator.System.{
  Fault, match_and_selectors, select_and_exclude, Made, match_of, then_matches, matches_of,
  cluster_matches_of,
}
use logging_operator.System.Flows.{
  checked, flow_matches, cluster_flow_matches, flow_for_flow, cluster_flow_from,
  flow_for_cluster_flow,
}
use logging_operator.System.Create.{
  ok, crashed, after, add_flow, add_flows, register_all, create_system,
}
use logging_operator.System.Logging.{LoggingResources}

module _ (marshal : Assoc Text → Option Text) where
  add_flows_crash :
      (ms : List (Made (Option Flow))) (a b : SystemBuilder) (e : Fault) (errs : List Fault)
      (rest : List (Made (Option Flow)))
      → add_flows marshal true ms a ≡ ok b
      → add_flows marshal true (ms ++ (none, e ∷ errs) ∷ rest) a ≡ crashed
  unfolding add_flows after register_flow
  add_flows_crash [] a b e errs rest h = refl
  add_flows_crash (m ∷ ms) a b e errs rest h =
      let (c, first, more) = >>=-eq-ok (add_flow marshal true m a) (add_flows marshal true ms) h in
      rw first (add_flows_crash ms c b e errs rest more)

module _ {S : Type 0} (json : Json) (md5 : Text → Text) (secrets : Text → SecretLoader S) where
  abbrev pub made_of : LoggingResources S → List (FlowResource S) → List (Made (Option Flow))
  made_of r = map (λ f. flow_for_flow md5 secrets f r.cluster_outputs r.outputs)

  register_all_crash :
      (r : LoggingResources S) (a b : SystemBuilder) (ms rest : List (Made (Option Flow)))
      (e : Fault)
      → r.logging.skip_invalid_resources ≡ true
      → made_of r r.flows ≡ ms ++ (none, e ∷ []) ∷ rest
      → add_flows json.marshal_map true ms a ≡ ok b
      → register_all json md5 secrets r a ≡ crashed
  unfolding register_all
  register_all_crash r a b ms rest e skip split h =
      rw (skip, split, add_flows_crash json.marshal_map ms a b e [] rest h) refl

  -- If `skipInvalidResources` is set, and the flows before a Flow resource are registered, and that
  -- resource has both `match` and `selectors`, or a match with both `select` and `exclude`, then the
  -- registration is not continued without it: it reads a nil pointer.
  pub skipped_flow_crashes :
      (r : LoggingResources S) (a b : SystemBuilder) (before rest : List (FlowResource S))
      (flow : FlowResource S) (e : Fault)
      → r.logging.skip_invalid_resources ≡ true
      → r.flows ≡ before ++ flow ∷ rest
      → flow_matches flow.namespace flow.name flow.spec.selectors flow.spec.match ≡ inr e
      → add_flows json.marshal_map true (made_of r before) a ≡ ok b
      → register_all json md5 secrets r a ≡ crashed
  skipped_flow_crashes r a b before rest flow e skip split invalid h =
      register_all_crash r a b (made_of r before) (made_of r rest) e skip
        (ap (made_of r) split
          ∙ (map-append _ before (flow ∷ rest)
              ∙ ap (λ m. made_of r before ++ m ∷ made_of r rest)
                  (not_made md5 secrets flow r.cluster_outputs r.outputs e invalid)))
        h

-- What keeps a Flow or ClusterFlow from having matches: both kinds of selection, or a match that both
-- selects and excludes.
pub data Ambiguous {A M : Type 0} (Both : M → Type 0) (selectors : Option A)
    (match : Option (List M)) : Type 0 where
  both_kinds :
      (s : A) (ms : List M) → selectors ≡ some s → match ≡ some ms → Ambiguous Both selectors match
  both_parts : (ms : List M) → match ≡ some ms → Has Both ms → Ambiguous Both selectors match

abbrev pub IsBoth : {A : Type 0} → (select exclude : Option A) → Type 0
IsBoth {A} select exclude = (s : A) × (e : A) × (select ≡ some s) × (exclude ≡ some e)

abbrev pub AmbiguousFlow : {S : Type 0} → FlowResource S → Type 0
AmbiguousFlow f = Ambiguous (λ (m : Match). IsBoth m.select m.exclude) f.spec.selectors f.spec.match

abbrev pub AmbiguousClusterFlow : {S : Type 0} → ClusterFlow S → Type 0
AmbiguousClusterFlow f =
    Ambiguous (λ (m : ClusterMatch). IsBoth m.select m.exclude) f.spec.selectors f.spec.match

then_matches-none : (o : Option (List FlowMatch)) → then_matches o none ≡ none
unfolding then_matches
then_matches-none none = refl
then_matches-none (some ms) = refl

matches_of-none :
    (namespace : Text) (ms : List Match)
    → Has (λ (m : Match). IsBoth m.select m.exclude) ms
    → matches_of namespace ms ≡ none
unfolding matches_of match_of then_matches
matches_of-none namespace [] has = absurd has
matches_of-none namespace (m ∷ ms) (inl (s, e, p, q)) = rw (p, q) refl
matches_of-none namespace (m ∷ ms) (inr has) =
    rw (matches_of-none namespace ms has) (then_matches-none _)

cluster_matches_of-none :
    (ms : List ClusterMatch)
    → Has (λ (m : ClusterMatch). IsBoth m.select m.exclude) ms
    → cluster_matches_of ms ≡ none
unfolding cluster_matches_of match_of then_matches
cluster_matches_of-none [] has = absurd has
cluster_matches_of-none (m ∷ ms) (inl (s, e, p, q)) = rw (p, q) refl
cluster_matches_of-none (m ∷ ms) (inr has) =
    rw (cluster_matches_of-none ms has) (then_matches-none _)

abbrev IsFault : List FlowMatch ⊎ Fault → Type 0
IsFault v = (e : Fault) × (v ≡ inr e)

flow_matches-IsFault :
    (namespace name : Text) (selectors : Option (Assoc Text)) (match : Option (List Match))
    → Ambiguous (λ (m : Match). IsBoth m.select m.exclude) selectors match
    → IsFault (flow_matches namespace name selectors match)
unfolding flow_matches checked
flow_matches-IsFault namespace name selectors match (both_kinds s ms p q) =
    (match_and_selectors namespace name, rw (p, q) refl)
flow_matches-IsFault namespace name none match (both_parts ms p has) =
    (select_and_exclude namespace name, rw (p, matches_of-none namespace ms has) refl)
flow_matches-IsFault namespace name (some s) match (both_parts ms p has) =
    (match_and_selectors namespace name, rw p refl)

cluster_flow_matches-IsFault :
    (namespace name : Text) (selectors : Option (Assoc Text)) (match : Option (List ClusterMatch))
    → Ambiguous (λ (m : ClusterMatch). IsBoth m.select m.exclude) selectors match
    → IsFault (cluster_flow_matches namespace name selectors match)
unfolding cluster_flow_matches checked
cluster_flow_matches-IsFault namespace name selectors match (both_kinds s ms p q) =
    (match_and_selectors namespace name, rw (p, q) refl)
cluster_flow_matches-IsFault namespace name none match (both_parts ms p has) =
    (select_and_exclude namespace name, rw (p, cluster_matches_of-none ms has) refl)
cluster_flow_matches-IsFault namespace name (some s) match (both_parts ms p has) =
    (match_and_selectors namespace name, rw p refl)

abbrev IsNil : Made (Option Flow) → Type 0
IsNil m = flow_of m ≡ none

all_made :
    (ms : List (Made (Option Flow))) (fs : List Flow)
    → map flow_of ms ≡ map some fs
    → ¬ Has IsNil ms
all_made [] fs h has = absurd has
all_made (m ∷ ms) [] h has = cc
all_made (m ∷ ms) (f ∷ fs) h (inl p) = cc
all_made (m ∷ ms) (f ∷ fs) h (inr has) = all_made ms fs (tail-eq_of_cons-eq h) has

module _ {S : Type 0} (json : Json) (md5 : Text → Text) (secrets : Text → SecretLoader S) where
  flow-IsNil :
      (r : LoggingResources S) (f : FlowResource S)
      → AmbiguousFlow f
      → IsNil (flow_for_flow md5 secrets f r.cluster_outputs r.outputs)
  flow-IsNil r f invalid =
      let (e, h) = flow_matches-IsFault f.namespace f.name f.spec.selectors f.spec.match invalid in
      ap flow_of (not_made md5 secrets f r.cluster_outputs r.outputs e h)

  cluster_flow-IsNil :
      (r : LoggingResources S) (f : ClusterFlow S)
      → AmbiguousClusterFlow f
      → IsNil (flow_for_cluster_flow md5 secrets f r.cluster_outputs)
  unfolding flow_for_cluster_flow
  cluster_flow-IsNil r f invalid =
      let (e, h) =
        cluster_flow_matches-IsFault f.namespace f.name f.spec.selectors f.spec.match invalid in
      ap (λ v. flow_of (cluster_flow_from md5 secrets f r.cluster_outputs v)) h

  one-IsNil :
      (r : LoggingResources S)
      → Has AmbiguousFlow r.flows ⊎ Has AmbiguousClusterFlow r.cluster_flows
      → Has IsNil (made_flows json md5 secrets r)
  one-IsNil r (inl has) =
      Has-append_left IsNil _ _ (Has-map AmbiguousFlow IsNil _ (flow-IsNil r) r.flows has)
  one-IsNil r (inr has) =
      Has-append_right IsNil
        (map (λ (f : FlowResource S). flow_for_flow md5 secrets f r.cluster_outputs r.outputs)
          r.flows)
        _ (Has-map AmbiguousClusterFlow IsNil _ (cluster_flow-IsNil r) r.cluster_flows has)

  -- If one Flow or ClusterFlow resource has both `selectors` and `match`, or a match that has both
  -- `select` and `exclude`, `CreateSystem` does not return a system, whatever `skipInvalidResources`
  -- says.
  pub invalid_flow_no_system :
      (r : LoggingResources S) (s : System)
      → Has AmbiguousFlow r.flows ⊎ Has AmbiguousClusterFlow r.cluster_flows
      → create_system json md5 secrets r ≢ ok s
  invalid_flow_no_system r s invalid h =
      let made = create_system-IsSystemOf json md5 secrets r s h in
      all_made (made_flows json md5 secrets r) made.registered.selected made.registered.made
        (one-IsNil r invalid)

-- ===== src/System/Isolation.antt =====
-- A Flow resource selects only logs of its own namespace.
use logging_operator.Base.{
  Text, ◌≡◌, refl, ap, ◌∙◌, Option, none, some, List, [], ◌∷◌, map, ◌⊎◌, inl, inr, subst, sym,
}
use logging_operator.Base.Assoc.{Assoc}
use logging_operator.Base.Lists.{All, All-append}
use logging_operator.Base.Sort.{sort_by, sort_strings}
use logging_operator.StringsMap.{SecretLoader}
use logging_operator.Flow.{FlowMatch, Flow, sort_namespaces}
use logging_operator.Resources.{Match, Select, FlowResource, ClusterOutput, Output}
use logging_operator.System.{Fault, matches_of, match_of, then_matches, select_match}
use logging_operator.System.Flows.{checked, selector_match, flow_matches, flow_from, flow_for_flow}
use logging_operator.System.Outputs.{flow_for_flow-IsFlowOf}

some_injective : {A : Type 0} {a b : A} → some a ≡ some b → a ≡ b
some_injective e = cc

inl_injective : {A B : Type 0} {a b : A} → ◌≡◌ {A = A ⊎ B} (inl a) (inl b) → a ≡ b
inl_injective e = cc

-- The match selects or excludes logs of one namespace, this one.
abbrev pub IsOf : Text → FlowMatch → Type 0
IsOf namespace m = m.namespaces ≡ namespace ∷ []

module _ (namespace : Text) where
  then_matches-All :
      (xs ys : Option (List FlowMatch)) (fs : List FlowMatch)
      → then_matches xs ys ≡ some fs
      → ((as' : List FlowMatch) → xs ≡ some as' → All (IsOf namespace) as')
      → ((bs : List FlowMatch) → ys ≡ some bs → All (IsOf namespace) bs)
      → All (IsOf namespace) fs
  unfolding then_matches
  then_matches-All none ys fs h f g = absurd (cc)
  then_matches-All (some as') none fs h f g = absurd (cc)
  then_matches-All (some as') (some bs) fs h f g =
      subst (All (IsOf namespace)) (some_injective h)
        (All-append (IsOf namespace) as' bs (f as' refl) (g bs refl))

  match_of-All :
      (s e : Option Select) (fs : List FlowMatch)
      → match_of (select_match namespace) s e ≡ some fs
      → All (IsOf namespace) fs
  unfolding match_of select_match
  match_of-All none none fs h = subst (All (IsOf namespace)) (some_injective h) tt
  match_of-All none (some e) fs h = subst (All (IsOf namespace)) (some_injective h) (refl, tt)
  match_of-All (some s) none fs h = subst (All (IsOf namespace)) (some_injective h) (refl, tt)
  match_of-All (some s) (some e) fs h = absurd (cc)

  matches_of-All :
      (ms : List Match) (fs : List FlowMatch)
      → matches_of namespace ms ≡ some fs
      → All (IsOf namespace) fs
  unfolding matches_of
  matches_of-All [] fs h = subst (All (IsOf namespace)) (some_injective h) tt
  matches_of-All (m ∷ ms) fs h =
      then_matches-All _ _ fs h (match_of-All m.select m.exclude) (matches_of-All ms)

  checked-All :
      (name : Text) (o : Option (List FlowMatch)) (ms : List FlowMatch)
      → checked namespace name o ≡ inl ms
      → ((fs : List FlowMatch) → o ≡ some fs → All (IsOf namespace) fs)
      → All (IsOf namespace) ms
  unfolding checked
  checked-All name none ms h f = absurd (cc)
  checked-All name (some fs) ms h f = subst (All (IsOf namespace)) (inl_injective h) (f fs refl)

  flow_matches-All :
      (name : Text) (selectors : Option (Assoc Text)) (match : Option (List Match))
      (ms : List FlowMatch)
      → flow_matches namespace name selectors match ≡ inl ms
      → All (IsOf namespace) ms
  unfolding flow_matches selector_match
  flow_matches-All name selectors none ms h =
      subst (All (IsOf namespace)) (inl_injective h) (refl, tt)
  flow_matches-All name none (some match) ms h = checked-All name _ ms h (matches_of-All match)
  flow_matches-All name (some s) (some match) ms h = absurd (cc)

  sorted-All :
      (ms : List FlowMatch)
      → All (IsOf namespace) ms
      → All (IsOf namespace) (map sort_namespaces ms)
  unfolding sort_namespaces sort_strings sort_by
  sorted-All [] h = tt
  sorted-All (m ∷ ms) (h, hs) = (ap sort_strings h, sorted-All ms hs)

module _ {S : Type 0} (md5 : Text → Text) (secrets : Text → SecretLoader S) (flow : FlowResource S)
    (cs : List (ClusterOutput S)) (os : List (Output S)) where
  -- The matches that the resource gives, or why it gives none
  abbrev pub valid_matches : List FlowMatch ⊎ Fault
  valid_matches = flow_matches flow.namespace flow.name flow.spec.selectors flow.spec.match

  pub not_made :
      (e : Fault) → valid_matches ≡ inr e → flow_for_flow md5 secrets flow cs os ≡ (none, e ∷ [])
  unfolding flow_for_flow
  not_made e p = ap (flow_from md5 secrets flow cs os) p

  made-All :
      (f : Flow) (v : List FlowMatch ⊎ Fault)
      → valid_matches ≡ v
      → (flow_for_flow md5 secrets flow cs os).0 ≡ some f
      → All (IsOf flow.namespace) f.matches
  made-All f (inr e) p h = absurd (cc (not_made e p))
  made-All f (inl ms) p h =
      let made = flow_for_flow-IsFlowOf md5 secrets flow cs os ms p in
      let same = some_injective (sym h ∙ made.returned) in
      subst (λ (t : Flow). All (IsOf flow.namespace) t.matches) (sym same)
        (rw made.matches (
          sorted-All flow.namespace ms
            (flow_matches-All flow.namespace flow.name flow.spec.selectors flow.spec.match ms p)))

  -- Whatever a Flow resource contains, each match of the flow that is made of it is for exactly one
  -- namespace, that of the resource; a match for another namespace, or for all, is never made.
  pub flow_for_flow-All :
      (f : Flow)
      → (flow_for_flow md5 secrets flow cs os).0 ≡ some f
      → All (IsOf flow.namespace) f.matches
  flow_for_flow-All f h = made-All f valid_matches refl h

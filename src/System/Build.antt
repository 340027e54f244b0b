-- ===== src/System/Build.antt =====
-- What a system that `CreateSystem` returns is made of.
use mathlib.Core.List.{Nodup, map-append}
use logging_operator.Base.{
  Text, ◌≡◌, refl, sym, ap, ◌∙◌, subst, Bool, true, false, Option, none, some, List, [], ◌∷◌, ◌++◌,
  map, append_assoc, append-nil, arith, Bool-cases, inl, inr,
}
use logging_operator.Base.Assoc.{Assoc}
use logging_operator.Directive.{Directive}
use logging_operator.Flow.{Flow}
use logging_operator.Router.{
  SystemBuilder, has_label, route_for, route_directive, add_route, register_flow,
}
use logging_operator.Router.Labels.{labels, Nodup-append_flow}
use logging_operator.System.{Made}
use logging_operator.System.Create.{Outcome, ok, failed, crashed, ◌>>=◌, after, add_flow, add_flows}

abbrev pub flow_of : Made (Option Flow) → Option Flow
flow_of m = m.0

pub ok-injective : {A : Type 0} {a b : A} → ok a ≡ ok b → a ≡ b
ok-injective h = cc

-- Both parts of a sequence that succeeds do.
pub >>=-eq-ok :
    {A B : Type 0} (m : Outcome A) (k : A → Outcome B) {b : B}
    → (m >>= k) ≡ ok b
    → (a : A) × (m ≡ ok a) × (k a ≡ ok b)
>>=-eq-ok (ok a) k h = (a, refl, h)
>>=-eq-ok (failed errs) k h = cc
>>=-eq-ok crashed k h = cc

module _ (marshal : Assoc Text → Option Text) where
  abbrev pub routes_of : List Flow → List Directive
  routes_of fs = map (λ f. route_directive (route_for marshal f)) fs

  -- `b` is `a` with flows added behind its own, and a route for each of them.
  pub record Extends (a : SystemBuilder) (fs : List Flow) (b : SystemBuilder) : Type 0 where
    pub flows : b.flows ≡ a.flows ++ fs
    pub routes : b.router.routes ≡ a.router.routes ++ routes_of fs
    pub params : b.router.params ≡ a.router.params
    pub distinct : Nodup (labels a.flows) → Nodup (labels b.flows)

  Extends-refl : (a : SystemBuilder) → Extends a [] a
  Extends-refl a = record {
    flows = sym (append-nil a.flows);
    routes = sym (append-nil a.router.routes);
    params = refl;
    distinct = λ h. h;
  }

  pub Extends-trans :
      {a b c : SystemBuilder} (fs gs : List Flow)
      → Extends a fs b
      → Extends b gs c
      → Extends a (fs ++ gs) c
  Extends-trans {a} {b} {c} fs gs x y = record {
    flows = cc (x.flows, y.flows, append_assoc a.flows fs gs);
    routes =
        y.routes
        ∙ rw (x.routes, append_assoc) (ap (λ t. a.router.routes ++ t) (sym (map-append _ fs gs)));
    params = y.params ∙ x.params;
    distinct = λ h. y.distinct (x.distinct h);
  }

  add_new-Extends :
      (a : SystemBuilder) (f : Flow)
      → has_label f.flow_label a.flows ≡ false
      → Extends a
          (f ∷ [])
          (record a { flows = a.flows ++ f ∷ []; router = add_route marshal a.router f })
  unfolding add_route
  add_new-Extends a f fresh = record {
    flows = refl;
    routes = refl;
    params = refl;
    distinct = λ h. Nodup-append_flow a.flows f fresh h;
  }

  register_flow-Extends :
      (a b : SystemBuilder) (m : Option Flow)
      → after (register_flow marshal a m) ≡ ok b
      → (f : Flow) × (m ≡ some f) × Extends a (f ∷ []) b
  unfolding after register_flow
  register_flow-Extends a b none h = absurd (cc)
  register_flow-Extends a b (some f) h = elim (Bool-cases (has_label f.flow_label a.flows)) [
    | inl p ↦ absurd (ground arith)
    | inr p ↦
        (f, refl, subst (Extends a (f ∷ [])) (ok-injective (rw p at h)) (add_new-Extends a f p))
  ]

  -- A round of the loop adds the flow that was made, whether its errors are skipped or there is none.
  add_flow-Extends :
      (skip : Bool) (a b : SystemBuilder) (m : Made (Option Flow))
      → add_flow marshal skip m a ≡ ok b
      → (f : Flow) × (m.0 ≡ some f) × Extends a (f ∷ []) b
  unfolding add_flow
  add_flow-Extends skip a b (o, []) h = register_flow-Extends a b o h
  add_flow-Extends true a b (o, (e ∷ errs)) h = register_flow-Extends a b o h
  add_flow-Extends false a b (o, (e ∷ errs)) h = absurd (cc)

  pub add_flows-Extends :
      (skip : Bool) (a b : SystemBuilder) (ms : List (Made (Option Flow)))
      → add_flows marshal skip ms a ≡ ok b
      → (fs : List Flow) × (map flow_of ms ≡ map some fs) × Extends a fs b
  unfolding add_flows
  add_flows-Extends skip a b [] h =
      ([], refl, subst (Extends a []) (ok-injective h) (Extends-refl a))
  add_flows-Extends skip a b (m ∷ ms) h =
      let (c, first, rest) = >>=-eq-ok (add_flow marshal skip m a) (add_flows marshal skip ms) h in
      let (f, made, x) = add_flow-Extends skip a c m first in
      let (fs, all_made, y) = add_flows-Extends skip c b ms rest in
      (f ∷ fs, cc (made, all_made), Extends-trans (f ∷ []) fs x y)

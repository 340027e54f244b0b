-- ===== src/System/Registered.antt =====
-- The flows and the routes of the system that the registrations build.
use mathlib.Core.List.{Nodup, Nodup-nil, map-append}
use logging_operator.Base.{
  Text, codes, ◌≡◌, refl, sym, ◌∙◌, subst, Option, none, some, List, [], ◌∷◌, ◌++◌, map, append-nil,
  arith,
}
use logging_operator.Base.Assoc.{lookup}
use logging_operator.StringsMap.{Json, SecretLoader}
use logging_operator.Flow.{Flow, calculate_flow_label, new_flow, with_filters, with_outputs}
use logging_operator.Resources.{ClusterOutput, FlowResource, ClusterFlow}
use logging_operator.Router.{SystemBuilder, register_error_flow, System, build}
use logging_operator.Router.Labels.{labels}
use logging_operator.System.{Made}
use logging_operator.System.Flows.{
  flow_for_flow, flow_for_cluster_flow, complete, flow_for_default_flow, error_flow, flow_for_error,
}
use logging_operator.System.Create.{
  ok, after, add_flows, chosen_error_flow, add_default, register_default, register_error,
  then_default, then_cluster_flows, register_all,
}
use logging_operator.System.Logging.{DefaultFlowSpec, Logging, LoggingResources}
use logging_operator.System.Ends.{
  Ends, register_default_flow-Ends, register_error_flow-Ends, flows_chain,
}
use logging_operator.System.Build.{
  flow_of, routes_of, Extends-trans, add_flows-Extends, >>=-eq-ok, ok-injective,
}

some_injective : {A : Type 0} {a b : A} → some a ≡ some b → a ≡ b
some_injective e = cc

module _ {S : Type 0} (json : Json) (md5 : Text → Text) (secrets : Text → SecretLoader S) where
  abbrev pub default_label : Logging S → Text
  default_label l = calculate_flow_label md5 [] l.name l.namespace

  -- What is made of the default flow's section, if there is one
  abbrev pub made_default :
      Logging S → Option (DefaultFlowSpec S) → List (ClusterOutput S) → List (Made (Option Flow))
  made_default l none cs = []
  made_default l (some d) cs =
      flow_for_default_flow md5 secrets l.namespace l.name d.filters d.global_output_refs cs ∷ []

  error_flow_label :
      (l : Logging S) (cs : List (ClusterOutput S)) (f : Flow)
      → chosen_error_flow json md5 secrets l cs ≡ ok f
      → f.flow_label ≡ codes "@ERROR"
  unfolding chosen_error_flow flow_for_error error_flow with_outputs
  error_flow_label l cs f h = ground arith

  default_made-Ends :
      (a b : SystemBuilder) (m : Made (Option Flow)) (f : Flow)
      → m.0 ≡ some f
      → add_default json.marshal_map m a ≡ ok b
      → Ends a (f ∷ []) b × (lookup (codes "default_route") b.router.params ≡ some f.flow_label)
  unfolding add_default
  default_made-Ends a b (none, errs) f e h = absurd (cc)
  default_made-Ends a b (some g, []) f e h =
      subst
        (λ (t : Flow).
          Ends a (t ∷ []) b × (lookup (codes "default_route") b.router.params ≡ some t.flow_label))
        (some_injective e) (register_default_flow-Ends json.marshal_map a b g h)
  default_made-Ends a b (some g, (x ∷ errs)) f e h = absurd (cc)

  -- The default flow, and the parameter of the router that names it
  register_default-Ends :
      (l : Logging S) (spec : Option (DefaultFlowSpec S)) (cs : List (ClusterOutput S))
      (a b : SystemBuilder)
      → register_default json md5 secrets l spec cs a ≡ ok b
      → (ds : List Flow) × (map flow_of (made_default l spec cs) ≡ map some ds)
        × Ends a ds b
        × ((d : DefaultFlowSpec S)
            → spec ≡ some d
            → lookup (codes "default_route") b.router.params ≡ some (default_label l))
  unfolding register_default flow_for_default_flow complete new_flow with_filters with_outputs
  register_default-Ends l none cs a b h = (
    [],
    refl,
    subst (Ends a []) (ok-injective h)
        (record { flows = sym (append-nil a.flows); routes = refl; distinct = λ n. n }),
    λ d e. absurd (cc),
  )
  register_default-Ends l (some d) cs a b h =
      let (ends, route) = default_made-Ends a b _ _ refl h in (_ ∷ [], refl, ends, λ d' e. route)

  -- What the flows and the cluster flows are made into, in their order
  abbrev pub made_flows : LoggingResources S → List (Made (Option Flow))
  made_flows r =
      map (λ f. flow_for_flow md5 secrets f r.cluster_outputs r.outputs) r.flows
      ++ map (λ f. flow_for_cluster_flow md5 secrets f r.cluster_outputs) r.cluster_flows

  -- A system with the flows of the resources, as they were made: `selected` are those of the Flow and
  -- ClusterFlow resources, in order, then the default flow if there is one, then the error flow.
  pub record HasFlowsOf (r : LoggingResources S) (s : System) : Type 0 where
    pub selected : List Flow
    pub defaults : List Flow
    pub error : Flow
    pub made : map flow_of (made_flows r) ≡ map some selected
    pub default_made :
        map flow_of (made_default r.logging r.logging.default_flow_spec r.cluster_outputs)
        ≡ map some defaults
    pub error_made : chosen_error_flow json md5 secrets r.logging r.cluster_outputs ≡ ok error
    pub error_label : error.flow_label ≡ codes "@ERROR"
    pub flows : s.flows ≡ selected ++ (defaults ++ error ∷ [])
    pub distinct : Nodup (labels s.flows)
    pub routes : s.router.routes ≡ routes_of json.marshal_map selected
    pub default_route :
        (d : DefaultFlowSpec S)
        → r.logging.default_flow_spec ≡ some d
        → lookup (codes "default_route") s.router.params ≡ some (default_label r.logging)

  pub register_all-HasFlowsOf :
      (r : LoggingResources S) (a b : SystemBuilder)
      → a.flows ≡ []
      → a.router.routes ≡ []
      → register_all json md5 secrets r a ≡ ok b
      → HasFlowsOf r (build b)
  unfolding register_all then_cluster_flows then_default register_error build
  register_all-HasFlowsOf r a b no_flows no_routes h =
      let marshal = json.marshal_map in
      let skip = r.logging.skip_invalid_resources in
      let ms =
        map (λ (f : FlowResource S). flow_for_flow md5 secrets f r.cluster_outputs r.outputs)
          r.flows in
      let cs =
        map (λ (f : ClusterFlow S). flow_for_cluster_flow md5 secrets f r.cluster_outputs)
          r.cluster_flows in
      let (b1, h1, k1) =
        >>=-eq-ok (add_flows marshal skip ms a) (then_cluster_flows json md5 secrets r) h in
      let (b2, h2, k2) =
        >>=-eq-ok (add_flows marshal skip cs b1) (then_default json md5 secrets r) k1 in
      let (b3, h3, k3) =
        >>=-eq-ok
          (register_default json md5 secrets r.logging r.logging.default_flow_spec r.cluster_outputs
            b2)
          (register_error json md5 secrets r) k2 in
      let (error, h4, k4) =
        >>=-eq-ok (chosen_error_flow json md5 secrets r.logging r.cluster_outputs)
          (λ e. after (register_error_flow b3 e)) k3 in
      let (fs, made_fs, x) = add_flows-Extends marshal skip a b1 ms h1 in
      let (gs, made_gs, y) = add_flows-Extends marshal skip b1 b2 cs h2 in
      let (ds, made_ds, z, route) =
        register_default-Ends r.logging r.logging.default_flow_spec r.cluster_outputs b2 b3 h3 in
      let (w, same_router) = register_error_flow-Ends b3 b error k4 in
      let ext = Extends-trans marshal fs gs x y in
      record {
        selected = fs ++ gs;
        defaults = ds;
        error = error;
        made = map-append flow_of ms cs ∙ cc (made_fs, made_gs, map-append some fs gs);
        default_made = made_ds;
        error_made = h4;
        error_label = error_flow_label r.logging r.cluster_outputs error h4;
        flows = flows_chain a b2 b3 b (fs ++ gs) ds (error ∷ []) no_flows ext.flows z.flows w.flows;
        distinct = w.distinct (z.distinct (ext.distinct (rw no_flows Nodup-nil)));
        routes = w.routes ∙ (z.routes ∙ (ext.routes ∙ rw no_routes refl));
        default_route = λ d e. rw same_router (route d e);
      }

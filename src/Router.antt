-- ===== src/Router.antt =====
-- pkg/sdk/logging/model/types/router.go and builder.go: the router, and the registration of flows.
-- `json.Marshal` of a `map[string]string` is a parameter; `none` is an error.
pub mod Labels
pub mod Collision
use logging_operator.Base.{
  Text, codes, ◌==◌, is_empty, Bool, true, false, not, ◌&&◌, Option, none, some, List, [], ◌∷◌,
  ◌++◌, map, if◌then◌else◌,
}
use logging_operator.Base.Assoc.{Assoc, insert}
use logging_operator.Directive.{PluginMeta, meta_of, Params, Directive, custom, to_directives}
use logging_operator.Flow.{FlowMatch, match_directive, Flow, flow_directive}

-- Its parameters are never nil here: `NewRouter` is only called with a map.
pub record Router : Type 0 where
  pub plugin_meta : PluginMeta
  pub routes : List Directive
  pub params : Params

unfoldable pub router_directive : Router → Directive
router_directive r = custom r.plugin_meta r.params (to_directives r.routes)

pub record FlowRoute : Type 0 where
  pub plugin_meta : PluginMeta
  pub params : Params
  pub matches : List Directive

pub route_directive : FlowRoute → Directive
route_directive f = custom f.plugin_meta f.params (to_directives f.matches)

unfoldable pub new_router : Text → Params → Router
new_router id params = record {
  plugin_meta = record (meta_of (codes "match")) {
    type = codes "label_router";
    tag = codes "**";
    id = id;
  };
  routes = [];
  params = params;
}

abbrev pub MarshalMap : Type 0
MarshalMap = Assoc Text → Option Text

-- `string(b)` where the error is ignored: nil bytes give "".
bytes_or_empty : Option Text → Text
bytes_or_empty none = []
bytes_or_empty (some b) = b

route_params : MarshalMap → Text → Params
unfolding bytes_or_empty
route_params marshal [] = []
route_params marshal (c ∷ id) =
    (codes "metrics_labels", bytes_or_empty (marshal ((codes "id", c ∷ id) ∷ []))) ∷ []

-- The route that `AddRoute` makes of a flow
pub route_for : MarshalMap → Flow → FlowRoute
unfolding route_params
route_for marshal flow = record {
  plugin_meta = record (meta_of (codes "route")) { label = flow.flow_label };
  params = route_params marshal flow.flow_id;
  matches = map match_directive flow.matches;
}

unfoldable pub add_route : MarshalMap → Router → Flow → Router
unfolding route_for
add_route marshal r flow = record r {
  routes = r.routes ++ route_directive (route_for marshal flow) ∷ [];
}

pub record SystemBuilder : Type 0 where
  pub input : Directive
  pub global_filters : List Directive
  pub flows : List Flow
  pub router : Router

unfoldable pub new_system_builder : Directive → List Directive → Router → SystemBuilder
new_system_builder input global_filters router = record {
  input = input;
  global_filters = global_filters;
  flows = [];
  router = router;
}

pub data BuildFault : Type 0 where
  flow_exists not_error_flow default_labels : BuildFault

-- The builder after a call, with its error if there is one; or a nil pointer was read.
pub data Registered : Type 0 where
  registered : SystemBuilder → Registered
  refused : BuildFault → SystemBuilder → Registered
  panics : Registered

-- The loop over `s.flows`
unfoldable pub has_label : Text → List Flow → Bool
has_label label [] = false
has_label label (e ∷ es) = if e.flow_label == label then true else has_label label es

-- With no flow yet `f` is read by `AddRoute`, and else by the loop.
unfoldable pub register_flow : MarshalMap → SystemBuilder → Option Flow → Registered
unfolding has_label add_route
register_flow marshal s none = panics
register_flow marshal s (some f) =
    if has_label f.flow_label s.flows
    then refused flow_exists s
    else registered (record s { flows = s.flows ++ f ∷ []; router = add_route marshal s.router f })

unfoldable pub register_error_flow : SystemBuilder → Flow → Registered
unfolding has_label
register_error_flow s f =
    if not (f.plugin_meta.tag == codes "@ERROR") && not (f.flow_id == codes "@ERROR")
    then refused not_error_flow s
    else if has_label f.flow_label s.flows
    then refused flow_exists s
    else registered (record s { flows = s.flows ++ f ∷ [] })

set_param : Text → Text → Router → Router
unfolding insert
set_param key val r = record r { params = insert key val r.params }

unfoldable pub finish_default : Option Text → SystemBuilder → Registered
unfolding set_param
finish_default none s = refused default_labels s
finish_default (some b) s =
    registered (record s { router = set_param (codes "default_metrics_labels") b s.router })

unfoldable pub register_default_flow : MarshalMap → SystemBuilder → Flow → Registered
unfolding has_label finish_default
register_default_flow marshal s f =
    if has_label f.flow_label s.flows
    then refused flow_exists s
    else finish_default (marshal ((codes "id", f.flow_id) ∷ [])) (record s {
      flows = s.flows ++ f ∷ [];
      router = set_param (codes "default_route") f.flow_label s.router;
    })

pub record System : Type 0 where
  pub input : Directive
  pub global_filters : List Directive
  pub router : Router
  pub flows : List Flow

unfoldable pub build : SystemBuilder → System
build s = record {
  input = s.input;
  global_filters = s.global_filters;
  router = s.router;
  flows = s.flows;
}

-- `System.GetDirectives`
unfoldable pub get_directives : System → List Directive
unfolding router_directive flow_directive
get_directives s =
    (s.input ∷ s.global_filters) ++ (router_directive s.router ∷ map flow_directive s.flows)

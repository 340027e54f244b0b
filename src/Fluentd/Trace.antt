-- ===== src/Fluentd/Trace.antt =====
-- The runs of pkg/resources/fluentd/fluentd.go and appconfigmap.go: what was asked of the cluster,
-- and how the run went.
use logging_operator.Base.{Text, Bool, Option, none, some, List, [], ◌∷◌, ◌++◌}
use logging_operator.Base.Assoc.{Assoc}
use logging_operator.Drain.{Request}

-- The resources of `Reconcile`, by the functions that make them
pub data Resource : Type 0 where
  service_account : Resource
  role : Resource
  role_binding : Resource
  cluster_role : Resource
  cluster_role_binding : Resource
  cluster_pod_security_policy : Resource
  psp_role : Resource
  psp_role_binding : Resource
  output_secret : Resource
  watched_secret : Resource
  secret_config : Resource
  app_config_secret : Resource
  statefulset : Resource
  service : Resource
  headless_service : Resource
  service_metrics : Resource
  monitor_service_metrics : Resource
  service_buffer_metrics : Resource
  monitor_buffer_service_metrics : Resource
  prometheus_rules : Resource
  buffer_volume_prometheus_rules : Resource

-- The objects of a config check, each for the hash of a configuration
pub data CheckObject : Type 0 where
  check_secret : Text → CheckObject
  check_output_secret : Text → CheckObject
  check_pod : Text → CheckObject

-- The requests: a resource, an object of a check, the patch of the status
pub data Event : Type 0 where
  reconciled : Resource → Event
  created : CheckObject → Event
  deleted : CheckObject → Event
  patched : Assoc Bool → Event
  asked_to_drain : Request → Event

-- What `Reconcile` returns instead of going on: a result to requeue, its own or a resource's, or an
-- error; or it reads a nil pointer.
pub data Stop (R : Type 0) : Type 0 where
  requeue : Stop R
  requeue_after_minute : Stop R
  resource_result : R → Stop R
  failed : Text → Stop R
  panicked : Stop R

pub data Result (R A : Type 0) : Type 0 where
  value : A → Result R A
  stopped : Stop R → Result R A

pub data Trace (R A : Type 0) : Type 0 where
  trace : List Event → Result R A → Trace R A

module _ {R : Type 0} where
  unfoldable pub events : {A : Type 0} → Trace R A → List Event
  events (trace es r) = es

  unfoldable pub result : {A : Type 0} → Trace R A → Result R A
  result (trace es r) = r

  unfoldable pub give : {A : Type 0} → A → Trace R A
  give a = trace [] (value a)

  unfoldable pub stop : {A : Type 0} → Stop R → Trace R A
  stop s = trace [] (stopped s)

  -- A request
  unfoldable pub ask : Event → Trace R (Unit {0})
  ask e = trace (e ∷ []) (value tt)

  unfoldable pub go_on : {A B : Type 0} → Result R A → (A → Trace R B) → Trace R B
  go_on (value a) f = f a
  go_on (stopped s) f = stop s

  infixl 5 ◌>>=◌
  unfoldable pub ◌>>=◌ : {A B : Type 0} → Trace R A → (A → Trace R B) → Trace R B
  unfolding events result go_on
  t >>= f = let rest = go_on (result t) f in trace (events t ++ events rest) (result rest)

  unfoldable pub of_error : Option Text → Trace R (Unit {0})
  unfolding give stop
  of_error none = give tt
  of_error (some e) = stop (failed e)

  -- A pointer is read.
  unfoldable pub of_pointer : {A : Type 0} → Option A → Trace R (Unit {0})
  unfolding give stop
  of_pointer none = stop panicked
  of_pointer (some a) = give tt

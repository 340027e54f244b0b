-- ===== src/Controller/Reconcile.antt =====
-- src/controllers/logging/logging_controller.go: `Reconcile` and `clusterConfiguration`.
use logging_operator.Base.{
  Text, is_empty, Bool, Option, none, some, List, [], ◌∷◌, ◌++◌, if◌then◌else◌,
}
use logging_operator.Base.Assoc.{Assoc}
use logging_operator.StringsMap.{Json, SecretLoader}
use logging_operator.Router.{System}
use logging_operator.System.{Fault}
use logging_operator.System.Logging.{Logging, LoggingResources}
use logging_operator.System.Create.{Outcome, ok, crashed, create_system}
use logging_operator.Render.{Rendered, RenderFault, written, render}
use logging_operator.Drain.Reconcile.{Drain}
use logging_operator.Fluentd.Secrets.{MountSecret}
use logging_operator.Fluentd.Trace.{failed, panicked, Result, value, stopped, result}
use logging_operator.Fluentd.Reconcile.{Surroundings, Desired, reconcile_fluentd}

-- The configuration and the pointer to the secrets; or an error, of the model or of the renderer; or
-- a panic
pub data Configuration : Type 0 where
  built : Text → Option (List MountSecret) → Configuration
  not_built : List Fault → Configuration
  not_rendered : RenderFault → Configuration
  config_panicked : Configuration

unfoldable pub of_rendered : List MountSecret → Rendered → Configuration
of_rendered mounted (written text) = built text (some mounted)
of_rendered mounted (Rendered.stopped text e) = not_rendered e

unfoldable pub of_created : List MountSecret → Outcome System → Configuration
unfolding of_rendered
of_created mounted (ok system) = of_rendered mounted (render 2 [] system)
of_created mounted (Outcome.failed errs) = not_built errs
of_created mounted crashed = config_panicked

-- `clusterConfiguration`, where `override` is the `FlowConfigOverride` and `mounted` what the secret
-- loaders collect on the way
unfoldable pub cluster_configuration :
    {S : Type 0}
    → Json
    → (Text → Text)
    → (Text → SecretLoader S)
    → Text
    → List MountSecret
    → LoggingResources S
    → Configuration
unfolding of_created
cluster_configuration json md5 secrets override mounted resources =
    if is_empty override
    then of_created mounted (create_system json md5 secrets resources)
    else built override none

pub data Component : Type 0 where
  validation : Component
  fluentd : Component
  fluentbit : Component
  node_agents : Component

-- A component and how its reconciler would end: it lets the controller go on, or stops it.
abbrev pub Step : Type 0 → Type 0
Step R = Component × Result R (Unit {0})

-- The loop over the reconcilers: those that ran, and the end
unfoldable pub run_steps : {R : Type 0} → List (Step R) → List Component × Result R (Unit {0})
run_steps [] = ([], value tt)
run_steps ((component, stopped s) ∷ steps) = (component ∷ [], stopped s)
run_steps ((component, value a) ∷ steps) =
    let (components, end) = run_steps steps in (component ∷ components, end)

-- What surrounds the controller: the surroundings of the reconciler of fluentd for its secrets, the
-- hash of a configuration, the text of an error, and how the other reconcilers end
pub record Reconcilers (R : Type 0) : Type 0 where
  pub surroundings : Option (List MountSecret) → Surroundings R
  pub hash : Text → Text
  pub show_faults : List Fault → Text
  pub show_fault : RenderFault → Text
  pub validate : Result R (Unit {0})
  pub reconcile_fluentbit : Result R (Unit {0})
  pub reconcile_node_agents : Result R (Unit {0})
  pub drain : Drain R

-- The fields of the logging that the controller reads beside its resources
pub record ControllerSpec : Type 0 where
  pub flow_config_override : Text
  pub has_fluentbit : Bool
  pub has_node_agents : Bool
  pub flow_config_check_disabled : Bool
  pub config_check_results : Assoc Bool

module _ {R : Type 0} (env : Reconcilers R) where
  abbrev pub desired : {S : Type 0} → ControllerSpec → Logging S → Text → Desired
  desired spec logging config = record {
    logging_ref = logging.logging_ref;
    flow_config_check_disabled = spec.flow_config_check_disabled;
    hash = env.hash config;
    config_check_results = spec.config_check_results;
  }

  -- How the reconciler of fluentd ends, for a configuration; none where building it panicked
  unfoldable pub fluentd_result :
      {S : Type 0} → ControllerSpec → Logging S → Configuration → Option (Result R (Unit {0}))
  unfolding reconcile_fluentd
  fluentd_result spec logging (built config secrets) = some (
      result (reconcile_fluentd (env.surroundings secrets) (desired spec logging config) env.drain))
  fluentd_result spec logging (not_built errs) = some (stopped (failed (env.show_faults errs)))
  fluentd_result spec logging (not_rendered e) = some (stopped (failed (env.show_fault e)))
  fluentd_result spec logging config_panicked = none

  abbrev pub later_steps : ControllerSpec → List (Step R)
  later_steps spec =
      (if spec.has_fluentbit then (fluentbit, env.reconcile_fluentbit) ∷ [] else [])
      ++ (if spec.has_node_agents then (node_agents, env.reconcile_node_agents) ∷ [] else [])

  unfoldable pub with_fluentd :
      ControllerSpec → Option (Result R (Unit {0})) → List Component × Result R (Unit {0})
  unfolding run_steps
  with_fluentd spec none = ([], stopped panicked)
  with_fluentd spec (some end) =
      run_steps ((validation, env.validate) ∷ (fluentd, end) ∷ later_steps spec)

  -- `Reconcile`, once the resources of the logging are collected: the configuration is made before
  -- the first reconciler runs.
  unfoldable pub reconcile_logging :
      {S : Type 0}
      → Json
      → (Text → Text)
      → (Text → SecretLoader S)
      → List MountSecret
      → ControllerSpec
      → LoggingResources S
      → List Component × Result R (Unit {0})
  unfolding with_fluentd fluentd_result cluster_configuration run_steps
  reconcile_logging json md5 secrets mounted spec r = elim r.logging.fluentd_spec [
    | none ↦ run_steps ((validation, env.validate) ∷ later_steps spec)
    | some f ↦ with_fluentd spec (
        fluentd_result spec r.logging
          (cluster_configuration json md5 secrets spec.flow_config_override mounted r))
  ]

-- ===== src/Fluentd/Reconcile.antt =====
-- `Reconcile` of pkg/resources/fluentd/fluentd.go.
use logging_operator.Base.{
  Text, codes, Bool, Option, none, some, List, [], ◌∷◌, map, ◌⊎◌, inl, inr, if◌then◌else◌,
}
use logging_operator.Base.Assoc.{Assoc, lookup}
use logging_operator.Drain.{DrainError}
use logging_operator.Drain.Reconcile.{Drain, disabled, unread, crashed, ran}
use logging_operator.Fluentd.Secrets.{MountSecret, Marked, mark_secrets}
use logging_operator.Fluentd.Trace.{
  Resource, service_account, role, role_binding, cluster_role, cluster_role_binding,
  cluster_pod_security_policy, psp_role, psp_role_binding, output_secret, watched_secret,
  secret_config, app_config_secret, statefulset, service, headless_service, service_metrics,
  monitor_service_metrics, service_buffer_metrics, monitor_buffer_service_metrics, prometheus_rules,
  buffer_volume_prometheus_rules, reconciled, asked_to_drain, resource_result, failed, panicked,
  Trace, trace, result, stopped, give, stop, ask, ◌>>=◌,
}
use logging_operator.Fluentd.ConfigCheck.{CheckServer}
use logging_operator.Fluentd.Cleanup.{check_config}

-- What a resource's function returns
pub data MadeObject : Type 0 where
  make_failed : Text → MadeObject
  nil_object : MadeObject
  object : MadeObject

-- What surrounds the reconciler. `reconcile_resource` is `ReconcileResource`, `get` reads a secret's
-- annotations, `combined` is the result and the error that a round of the drain combines, the
-- result only where it is not zero.
pub record Surroundings (R : Type 0) : Type 0 where
  pub server : CheckServer
  pub make : Resource → MadeObject
  pub reconcile_resource : Resource → Option R × Option Text
  pub get : Text → Text → Assoc Text ⊎ Text
  pub combined : List (Option R × Option DrainError) → Option R × Option Text

-- What is reconciled: the hash of the configuration, and the status
pub record Desired : Type 0 where
  pub logging_ref : Text
  pub flow_config_check_disabled : Bool
  pub hash : Text
  pub config_check_results : Assoc Bool

-- The resources before the config check
unfoldable pub early_resources : List Resource
early_resources =
    service_account ∷ role ∷ role_binding ∷ cluster_role ∷ cluster_role_binding
    ∷ cluster_pod_security_policy ∷ psp_role ∷ psp_role_binding ∷ []

-- The resources after the secrets
unfoldable pub late_resources : List Resource
late_resources =
    secret_config ∷ app_config_secret ∷ statefulset ∷ service ∷ headless_service ∷ service_metrics
    ∷ monitor_service_metrics ∷ service_buffer_metrics ∷ monitor_buffer_service_metrics
    ∷ prometheus_rules ∷ buffer_volume_prometheus_rules ∷ []

module _ {R : Type 0} where
  -- A result or an error ends the run.
  unfoldable pub unless_result : Option R × Option Text → Trace R (Unit {0})
  unless_result (result, some e) = stop (failed e)
  unless_result (some result, none) = stop (resource_result result)
  unless_result (none, none) = give tt

  unfoldable pub of_result : {A : Type 0} → A ⊎ Text → Trace R A
  of_result (inl a) = give a
  of_result (inr e) = stop (failed e)

  unfoldable pub of_secrets : Option (List MountSecret) → Trace R (List MountSecret)
  of_secrets none = stop panicked
  of_secrets (some secrets) = give secrets

module _ {R : Type 0} (s : Surroundings R) where
  -- `ReconcileResource` of an object
  unfoldable pub apply_resource : Resource → Trace R (Unit {0})
  unfolding unless_result
  apply_resource r = do _ ← ask (reconciled r); unless_result (s.reconcile_resource r)

  unfoldable pub with_object : Resource → MadeObject → Trace R (Unit {0})
  unfolding apply_resource
  with_object r (make_failed e) = stop (failed e)
  with_object r nil_object =
      stop (failed (codes "Reconcile error! Resource returns with nil object"))
  with_object r object = apply_resource r

  unfoldable pub run_resources : List Resource → Trace R (Unit {0})
  unfolding with_object
  run_resources [] = give tt
  run_resources (r ∷ rs) = do _ ← with_object r (s.make r); run_resources rs

  -- The marked secrets, one after the other
  unfoldable pub apply_marked : List Marked → Trace R (Unit {0})
  unfolding apply_resource
  apply_marked [] = give tt
  apply_marked (m ∷ ms) = do _ ← apply_resource watched_secret; apply_marked ms

  unfoldable pub drain_result : Drain R → Trace R (Unit {0})
  unfolding unless_result
  drain_result disabled = give tt
  drain_result (unread e) = stop (failed e)
  drain_result crashed = stop panicked
  drain_result (ran run) =
      trace (map asked_to_drain run.requests) (
        if run.panicked then stopped panicked else result (unless_result (s.combined run.combined)))

  -- After the config check: the secrets, the late resources, and the drain
  unfoldable pub roll_out : Text → Drain R → Trace R (Unit {0})
  unfolding run_resources apply_marked apply_resource mark_secrets late_resources drain_result
  roll_out logging_ref drain = do
    secrets ← of_secrets s.server.secrets
    _ ← apply_resource output_secret
    marked ← of_result (mark_secrets s.get logging_ref secrets)
    _ ← apply_marked marked
    _ ← run_resources late_resources
    drain_result drain

  unfoldable pub check : Desired → Trace R (Unit {0})
  unfolding check_config lookup
  check d =
      if d.flow_config_check_disabled
      then give tt
      else check_config s.server d.hash d.config_check_results
          (lookup d.hash d.config_check_results)

  -- `Reconcile`, where `drain` is how `reconcileDrain` would run
  unfoldable pub reconcile_fluentd : Desired → Drain R → Trace R (Unit {0})
  unfolding run_resources early_resources check roll_out
  reconcile_fluentd d drain = do
    _ ← run_resources early_resources
    _ ← check d
    roll_out d.logging_ref drain

-- ===== src/Examples/Controllers.antt =====
-- The theorems on the controller and on the reconciler of fluentd, at concrete answers of the cluster.
use logging_operator.Base.{ℕ, codes, ◌≡◌, refl, true, false, Option, none, some, List, [], ◌∷◌, inl}
use logging_operator.Base.Lists.{All, Has}
use logging_operator.Base.Assoc.{keys}
use logging_operator.Drain.Reconcile.{disabled}
use logging_operator.Fluentd.Secrets.{MountSecret, mark_secret}
use logging_operator.Fluentd.Trace.{value, stopped, requeue, events}
use logging_operator.Fluentd.ConfigCheck.{CheckServer, made, gone, found, pod_succeeded}
use logging_operator.Fluentd.Reconcile.{Surroundings, Desired, object, reconcile_fluentd}
use logging_operator.Fluentd.Sound.{Sound}
use logging_operator.Fluentd.Safe.{reconcile_fluentd-Sound}
use logging_operator.Controller.Mapper.{LoggingItem, requests_for_secret}
use logging_operator.Controller.Watched.{mark_secret-requests}
use logging_operator.Controller.Reconcile.{
  Step, validation, fluentd, fluentbit, run_steps, Reconcilers, ControllerSpec, reconcile_logging,
}
use logging_operator.Controller.Chain.{Ran, run_steps-Ran}
use logging_operator.Controller.Override.{EndedEarly, reconcile_logging-EndedEarly}
use logging_operator.Examples.Data.{json, md5, secrets, cluster_resources}

abbrev server_with : Option (List MountSecret) → CheckServer
server_with given = record {
  create = λ o. made;
  delete = λ o. gone;
  list_pods = λ hash. inl [];
  get_pod = λ hash. found pod_succeeded;
  config_secret_error = none;
  secrets = given;
  patch_error = none;
}

abbrev surroundings_with : Option (List MountSecret) → Surroundings ℕ
surroundings_with given = record {
  server = server_with given;
  make = λ r. object;
  reconcile_resource = λ r. (none, none);
  get = λ name namespace. inl [];
  combined = λ results. (none, none);
}

abbrev to_check : Desired
to_check = record {
  logging_ref = [];
  flow_config_check_disabled = false;
  hash = codes "1f";
  config_check_results = (codes "2e", true) ∷ [];
}

reconcile_fluentd-Sound_example :
    All
      (Sound (server_with (some [])) to_check)
      (events (reconcile_fluentd (surroundings_with (some [])) to_check disabled))
reconcile_fluentd-Sound_example =
    reconcile_fluentd-Sound (surroundings_with (some [])) to_check disabled

abbrev logging_item : LoggingItem
logging_item = record { namespace = []; name = codes "main"; logging_ref = codes "one" }

mark_secret-requests_example :
    Has
      (λ r. r ≡ ([], codes "main"))
      (requests_for_secret (logging_item ∷ []) (keys (mark_secret (codes "one") [])))
unfolding codes
mark_secret-requests_example =
    mark_secret-requests (logging_item ∷ []) logging_item [] (inl refl) (refl, (refl, (refl, tt)))

abbrev steps : List (Step ℕ)
steps = (validation, value tt) ∷ (fluentd, stopped requeue) ∷ (fluentbit, value tt) ∷ []

run_steps-Ran_example : Ran steps (run_steps steps)
run_steps-Ran_example = run_steps-Ran steps

abbrev reconcilers : Reconcilers ℕ
reconcilers = record {
  surroundings = surroundings_with;
  hash = λ config. config;
  show_faults = λ errs. [];
  show_fault = λ e. [];
  validate = value tt;
  reconcile_fluentbit = value tt;
  reconcile_node_agents = value tt;
  drain = disabled;
}

abbrev overridden : ControllerSpec
overridden = record {
  flow_config_override = b'#' ∷ [];
  has_fluentbit = true;
  has_node_agents = false;
  flow_config_check_disabled = true;
  config_check_results = [];
}

reconcile_logging-EndedEarly_example :
    EndedEarly (reconcile_logging reconcilers json md5 secrets [] overridden cluster_resources)
reconcile_logging-EndedEarly_example =
    reconcile_logging-EndedEarly reconcilers json md5 secrets [] overridden cluster_resources _
      (λ given. refl) refl refl

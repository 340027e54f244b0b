-- ===== src/Controller/Override.antt =====
-- A logging with a `flowConfigOverride`.
use logging_operator.Base.{Text, is_empty, ◌≡◌, refl, false, Option, none, some, List, ◌∷◌}
use logging_operator.Base.Lists.{All}
use logging_operator.StringsMap.{Json, SecretLoader}
use logging_operator.System.Logging.{FluentdSpec, LoggingResources}
use logging_operator.Drain.Reconcile.{Drain}
use logging_operator.Fluentd.Secrets.{MountSecret}
use logging_operator.Fluentd.Trace.{Stop, panicked, Result, value, stopped}
use logging_operator.Fluentd.Events.{Returns, Returns-bind, Returns-stop}
use logging_operator.Fluentd.Reconcile.{
  Surroundings, Desired, reconcile_fluentd, run_resources, early_resources, check, roll_out,
  of_secrets,
}
use logging_operator.Controller.Reconcile.{
  cluster_configuration, Component, validation, fluentd, fluentbit, node_agents, run_steps,
  Reconcilers, ControllerSpec, fluentd_result, with_fluentd, reconcile_logging, desired,
  later_steps, Step,
}

of_secrets-stops :
    (R : Type 0) (o : Option (List MountSecret)) (secrets : List MountSecret)
    → o ≡ none
    → Returns (of_secrets {R = R} o) secrets
    → ⊥
unfolding of_secrets
of_secrets-stops R none secrets e h = Returns-stop R panicked secrets h
of_secrets-stops R (some x) secrets e h = absurd (cc)

-- The run reads the pointer to the secrets before it rolls out.
reconcile_fluentd-stops :
    {R : Type 0} (s : Surroundings R) (d : Desired) (drain : Drain R) (a : Unit {0})
    → s.server.secrets ≡ none
    → Returns (reconcile_fluentd s d drain) a
    → ⊥
unfolding reconcile_fluentd roll_out
reconcile_fluentd-stops s d drain a e h =
    let (_, _, h1) = Returns-bind (run_resources s early_resources) _ a h in
    let (_, _, h2) = Returns-bind (check s d) _ a h1 in
    let (secrets, h3, _) = Returns-bind (of_secrets s.server.secrets) _ a h2 in
    of_secrets-stops _ s.server.secrets secrets e h3

-- A component did not run.
abbrev pub Skipped : Component → List Component → Type 0
Skipped component = All (λ c. c ≡ component → ⊥)

-- The run ended with a result, an error or a panic, and before the components behind fluentd.
abbrev pub EndedEarly : {R : Type 0} → List Component × Result R (Unit {0}) → Type 0
EndedEarly {R} out =
    ((s : Stop R) × (out.1 ≡ stopped s)) × Skipped fluentbit out.0 × Skipped node_agents out.0

run_steps-EndedEarly :
    {R : Type 0} (first end : Result R (Unit {0})) (later : List (Step R))
    → (end ≡ value tt → ⊥)
    → EndedEarly (run_steps ((validation, first) ∷ (fluentd, end) ∷ later))
unfolding run_steps
run_steps-EndedEarly (stopped s) end later h =
    ((s, refl), ((λ e. absurd (cc)), tt), ((λ e. absurd (cc)), tt))
run_steps-EndedEarly (value a) (stopped s) later h = (
  (s, refl),
  ((λ e. absurd (cc)), ((λ e. absurd (cc)), tt)),
  ((λ e. absurd (cc)), ((λ e. absurd (cc)), tt)),
)
run_steps-EndedEarly (value a) (value b) later h = absurd (h refl)

-- A logging that has a fluentd and a `flowConfigOverride` that is not empty is never reconciled to the
-- end, whatever the cluster answers: the run ends with a result, an error or a panic, and neither
-- fluent-bit nor the node agents are reconciled. For the reconciler of fluentd gets no secrets then,
-- and reads the pointer to them. `surroundings` are assumed to hold the pointer that they are given.
pub reconcile_logging-EndedEarly :
    {R S : Type 0} (env : Reconcilers R) (json : Json) (md5 : Text → Text)
    (secrets : Text → SecretLoader S) (mounted : List MountSecret) (spec : ControllerSpec)
    (r : LoggingResources S) (f : FluentdSpec)
    → ((given : Option (List MountSecret)) → (env.surroundings given).server.secrets ≡ given)
    → r.logging.fluentd_spec ≡ some f
    → is_empty spec.flow_config_override ≡ false
    → EndedEarly (reconcile_logging env json md5 secrets mounted spec r)
unfolding reconcile_logging cluster_configuration with_fluentd fluentd_result Returns
reconcile_logging-EndedEarly env json md5 secrets mounted spec r f holds e ne =
    rw (reconcile_logging, e)
      (rw ne (
        run_steps-EndedEarly env.validate _ (later_steps env spec) (
          reconcile_fluentd-stops (env.surroundings none)
            (desired env spec r.logging spec.flow_config_override) env.drain tt (holds none))))

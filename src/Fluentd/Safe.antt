-- ===== src/Fluentd/Safe.antt =====
-- The whole of `Reconcile` of fluentd: all its requests have their reasons.
use logging_operator.Base.{
  Text, ◌≡◌, refl, Bool, true, false, Option, none, some, List, [], ◌∷◌, map, ◌⊎◌, inl, inr,
  if◌then◌else◌, Bool-cases,
}
use logging_operator.Base.Lists.{All, All-every}
use logging_operator.Base.Assoc.{Assoc, insert}
use logging_operator.Drain.{Request}
use logging_operator.Drain.Reconcile.{Drain, disabled, unread, crashed, ran}
use logging_operator.Fluentd.Secrets.{MountSecret, Marked, mark_secrets}
use logging_operator.Fluentd.Trace.{
  Resource, output_secret, watched_secret, Event, reconciled, patched, asked_to_drain, requeue,
  failed, panicked, requeue_after_minute, resource_result, Trace, events, ask, of_error,
}
use logging_operator.Fluentd.ConfigCheck.{CheckServer, ConfigCheckResult, config_check}
use logging_operator.Fluentd.Cleanup.{patch_status, after_check, check_config}
use logging_operator.Fluentd.Reconcile.{
  MadeObject, make_failed, nil_object, object, Surroundings, Desired, early_resources,
  late_resources, unless_result, of_result, of_secrets, apply_resource, with_object, run_resources,
  apply_marked, drain_result, roll_out, check, reconcile_fluentd,
}
use logging_operator.Fluentd.Events.{
  Each, Each-bind, Each-give, Each-stop, Each-ask, Returns, Returns-bind, Returns-then,
  Returns-stop,
}
use logging_operator.Fluentd.Sound.{known, Validated, Sound, Each-check_config}

module _ (R : Type 0) (server : CheckServer) (hash : Text) (results : Assoc Bool) where
  patch_status-stops :
      (m : Assoc Bool) (a : Unit {0}) → Returns (patch_status {R = R} server m) a → ⊥
  unfolding patch_status
  patch_status-stops m a h =
      Returns-stop R requeue a
        (Returns-then (of_error server.patch_error) _ a (Returns-then (ask (patched m)) _ a h))

  after_check-stops :
      (r : ConfigCheckResult) (a : Unit {0})
      → Returns (after_check {R = R} server hash results r) a
      → ⊥
  unfolding after_check
  after_check-stops r a h = elim (Bool-cases r.ready) [
    | inl p ↦ patch_status-stops (insert hash r.valid results) a (rw p at h)
    | inr p ↦ Returns-stop R requeue_after_minute a (rw p at h)
  ]

  -- The config check lets the run go on only where the configuration is known to be valid.
  check_config-valid :
      (o : Option Bool) (a : Unit {0})
      → Returns (check_config {R = R} server hash results o) a
      → o ≡ some true
  unfolding check_config
  check_config-valid (some false) a h = absurd (Returns-stop R _ a h)
  check_config-valid (some true) a h = refl
  check_config-valid none a h =
      let (r, _, k) = Returns-bind (config_check {R = R} server hash) _ a h in
      absurd (after_check-stops r a k)

module _ (R : Type 0) (s : Surroundings R) (P : Event → Type 0) where
  Each-unless_result : (o : Option R × Option Text) → Each P (unless_result o)
  unfolding unless_result
  Each-unless_result (r, some e) = Each-stop R _ P (failed e)
  Each-unless_result (some r, none) = Each-stop R _ P (resource_result r)
  Each-unless_result (none, none) = Each-give R P tt

  Each-apply_resource : (r : Resource) → P (reconciled r) → Each P (apply_resource s r)
  unfolding apply_resource
  Each-apply_resource r p =
      Each-bind P _ _ (Each-ask R P (reconciled r) p)
        (λ _ _. Each-unless_result (s.reconcile_resource r))

  Each-with_object : (r : Resource) (m : MadeObject) → P (reconciled r) → Each P (with_object s r m)
  unfolding with_object
  Each-with_object r (make_failed e) p = Each-stop R _ P (failed e)
  Each-with_object r nil_object p = Each-stop R _ P _
  Each-with_object r object p = Each-apply_resource r p

  Each-run_resources :
      (rs : List Resource) → All (λ r. P (reconciled r)) rs → Each P (run_resources s rs)
  unfolding run_resources
  Each-run_resources [] p = Each-give R P tt
  Each-run_resources (r ∷ rs) (p, ps) =
      Each-bind P _ _ (Each-with_object r (s.make r) p) (λ _ _. Each-run_resources rs ps)

  Each-apply_marked :
      (ms : List Marked) → P (reconciled watched_secret) → Each P (apply_marked s ms)
  unfolding apply_marked
  Each-apply_marked [] p = Each-give R P tt
  Each-apply_marked (m ∷ ms) p =
      Each-bind P _ _ (Each-apply_resource watched_secret p) (λ _ _. Each-apply_marked ms p)

  asked_All :
      (requests : List Request)
      → ((request : Request) → P (asked_to_drain request))
      → All P (map asked_to_drain requests)
  asked_All [] p = tt
  asked_All (r ∷ rs) p = (p r, asked_All rs p)

  Each-drain_result :
      (drain : Drain R)
      → ((request : Request) → P (asked_to_drain request))
      → Each P (drain_result s drain)
  unfolding drain_result Each events
  Each-drain_result disabled p = Each-give R P tt
  Each-drain_result (unread e) p = Each-stop R _ P (failed e)
  Each-drain_result crashed p = Each-stop R _ P panicked
  Each-drain_result (ran run) p = asked_All run.requests p

  Each-of_secrets : (o : Option (List MountSecret)) → Each P (of_secrets {R = R} o)
  unfolding of_secrets
  Each-of_secrets none = Each-stop R _ P panicked
  Each-of_secrets (some secrets) = Each-give R P secrets

  Each-of_result : {A : Type 0} (o : A ⊎ Text) → Each P (of_result {R = R} o)
  unfolding of_result
  Each-of_result (inl a) = Each-give R P a
  Each-of_result (inr e) = Each-stop R _ P (failed e)

  -- The roll out, where all its requests have the property
  Each-roll_out :
      (logging_ref : Text) (drain : Drain R)
      → ((r : Resource) → P (reconciled r))
      → ((request : Request) → P (asked_to_drain request))
      → Each P (roll_out s logging_ref drain)
  unfolding roll_out late_resources
  Each-roll_out logging_ref drain p q =
      Each-bind P _ _ (Each-of_secrets s.server.secrets) (λ secrets _.
        Each-bind P _ _ (Each-apply_resource output_secret (p output_secret)) (λ _ _.
          Each-bind P _ _ (Each-of_result (mark_secrets s.get logging_ref secrets)) (λ marked _.
            Each-bind P _ _ (Each-apply_marked marked (p watched_secret)) (λ _ _.
              Each-bind P _ _ (Each-run_resources late_resources (All-every p late_resources))
                (λ _ _. Each-drain_result drain q)))))

Each-if :
    {R A : Type 0} (P : Event → Type 0) (b : Bool) (t u : Trace R A)
    → Each P t
    → Each P u
    → Each P (if b then t else u)
Each-if P true t u h k = h
Each-if P false t u h k = k

module _ {R : Type 0} (s : Surroundings R) (d : Desired) where
  check-Validated : (a : Unit {0}) → Returns (check s d) a → Validated d
  unfolding check
  check-Validated a h = elim (Bool-cases d.flow_config_check_disabled) [
    | inl p ↦ inl p
    | inr p ↦
        inr (check_config-valid R s.server d.hash d.config_check_results (known d) a (rw p at h))
  ]

  Each-check : Each (Sound s.server d) (check s d)
  unfolding check
  Each-check =
      Each-if (Sound s.server d) d.flow_config_check_disabled _ _
        (Each-give R (Sound s.server d) tt) (Each-check_config R s.server d (known d) refl)

-- Whatever fails: the resources that depend on the configuration are reconciled, and the drain asks
-- for something, only where the config check is disabled or the status has a positive result for the
-- hash of the configuration. A check creates its objects for that hash only, and only if the status
-- has no result for it; a cleanup deletes objects of other hashes only, and only after a positive
-- result. A patch of the status either keeps that positive result, or records a result for the hash
-- that the phase of its pod gives.
pub reconcile_fluentd-Sound :
    {R : Type 0} (s : Surroundings R) (d : Desired) (drain : Drain R)
    → All (Sound s.server d) (events (reconcile_fluentd s d drain))
unfolding reconcile_fluentd Each early_resources
reconcile_fluentd-Sound {R} s d drain =
    let early =
      Each-run_resources R s (Sound s.server d) early_resources
        (inl tt, (inl tt, (inl tt, (inl tt, (inl tt, (inl tt, (inl tt, (inl tt, tt)))))))) in
    Each-bind (Sound s.server d) (run_resources s early_resources) _ early (λ _ _.
      Each-bind (Sound s.server d) (check s d) _ (Each-check s d) (λ a h.
        let valid = check-Validated s d a h in
        Each-roll_out R s (Sound s.server d) d.logging_ref drain (λ r. inr valid) (λ q. valid)))

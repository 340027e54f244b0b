-- ===== src/Fluentd/Sound.antt =====
-- What `Reconcile` of fluentd asks for, and why.
use logging_operator.Base.{
  Text, ◌==◌, eq_iff, eq_refl, ◌≡◌, ◌≢◌, refl, ◌∙◌, subst, Bool, true, false, Option, none, some,
  List, [], ◌∷◌, ◌⊎◌, inl, inr, Bool-cases,
}
use logging_operator.Base.Lists.{All}
use logging_operator.Base.Assoc.{Assoc, keys, lookup, delete, lookup-insert, lookup-delete}
use logging_operator.Fluentd.Trace.{
  Resource, service_account, role, role_binding, cluster_role, cluster_role_binding,
  cluster_pod_security_policy, psp_role, psp_role_binding, Event, reconciled, created, deleted,
  patched, asked_to_drain, requeue, requeue_after_minute, give,
}
use logging_operator.Fluentd.ConfigCheck.{CheckServer, ConfigCheckResult, config_check}
use logging_operator.Fluentd.Cleanup.{
  cleanup_hash, add_removed, config_check_cleanup, delete_all, patch_status, after_cleanup,
  after_check, check_config,
}
use logging_operator.Fluentd.Reconcile.{Desired}
use logging_operator.Fluentd.Events.{
  Each, Each-bind, Each-give, Each-stop, Each-ask, Returns, Returns-bind, Returns-give,
}
use logging_operator.Fluentd.Verdict.{hash_of, IsVerdict, config_check-Verdict}
use logging_operator.Fluentd.Quiet.{of_error-Each, config_check-Each, config_check_cleanup-Each}

-- A resource that does not depend on the configuration
abbrev pub IsEarly : Resource → Type 0
IsEarly service_account = Unit
IsEarly role = Unit
IsEarly role_binding = Unit
IsEarly cluster_role = Unit
IsEarly cluster_role_binding = Unit
IsEarly cluster_pod_security_policy = Unit
IsEarly psp_role = Unit
IsEarly psp_role_binding = Unit
IsEarly _ = ⊥

-- The result that the status has for the configuration
abbrev pub known : Desired → Option Bool
known d = lookup d.hash d.config_check_results

-- The configuration may be used.
abbrev pub Validated : Desired → Type 0
Validated d = (d.flow_config_check_disabled ≡ true) ⊎ (known d ≡ some true)

-- Why a request is made.
abbrev pub Sound : CheckServer → Desired → Event → Type 0
Sound server d (reconciled r) = IsEarly r ⊎ Validated d
Sound server d (asked_to_drain request) = Validated d
Sound server d (created o) = (hash_of o ≡ d.hash) × (known d ≡ none)
Sound server d (deleted o) = (hash_of o ≢ d.hash) × (known d ≡ some true)
Sound server d (patched results) =
    ((known d ≡ some true) × (lookup d.hash results ≡ some true))
    ⊎ ((b : Bool) × (lookup d.hash results ≡ some b) × IsVerdict server d.hash b)

delete_all-lookup :
    (current : Text) (removed : List Text) (m : Assoc Bool)
    → All (λ hash. hash ≢ current) removed
    → lookup current (delete_all removed m) ≡ lookup current m
unfolding delete_all
delete_all-lookup current [] m h = refl
delete_all-lookup current (hash ∷ hashes) m (ne, h) =
    delete_all-lookup current hashes (delete hash m) h
    ∙ (lookup-delete hash current m ∙ elim (Bool-cases (hash == current)) [
      | inl p ↦ absurd (ne ((eq_iff hash current).0 p))
      | inr p ↦ rw p refl
    ])

module _ (R : Type 0) (server : CheckServer) (current : Text) where
  -- The removed hashes are other ones.
  add_removed-All :
      (hash : Text) (error : Option Text) (others : List Text × List Text)
      → hash ≢ current
      → All (λ hash. hash ≢ current) others.0
      → All (λ hash. hash ≢ current) (add_removed hash error others).0
  unfolding add_removed
  add_removed-All hash none (removed, errs) ne h = (ne, h)
  add_removed-All hash (some e) (removed, errs) ne h = h

  cleanup-removed :
      (hashes : List Text) (outcome : List Text × List Text)
      → Returns (config_check_cleanup {R = R} server current hashes) outcome
      → All (λ hash. hash ≢ current) outcome.0
  unfolding config_check_cleanup
  cleanup-removed [] outcome h =
      subst (λ (o : List Text × List Text). All (λ hash. hash ≢ current) o.0)
        (Returns-give R ([], []) outcome h) tt
  cleanup-removed (hash ∷ hashes) outcome h = elim (Bool-cases (hash == current)) [
    | inl p ↦ cleanup-removed hashes outcome (rw p at h)
    | inr p ↦
        (let (error, _, h1) =
            Returns-bind (cleanup_hash {R = R} server hash) _ outcome (rw p at h) in
          let (others, got, h2) =
            Returns-bind (config_check_cleanup {R = R} server current hashes)
              (λ others. give (add_removed hash error others)) outcome h1 in
          subst (λ (o : List Text × List Text). All (λ hash. hash ≢ current) o.0)
            (Returns-give R (add_removed hash error others) outcome h2)
            (add_removed-All hash error others (λ e. absurd (cc (p, (eq_iff hash current).1 e)))
              (cleanup-removed hashes others got)))
  ]

module _ (R : Type 0) (server : CheckServer) (d : Desired) where
  Each-patch_status :
      (results : Assoc Bool)
      → Sound server d (patched results)
      → Each (Sound server d) (patch_status {R = R} server results)
  unfolding patch_status
  Each-patch_status results p =
      Each-bind (Sound server d) _ _ (Each-ask R (Sound server d) _ p) (λ _ _.
        Each-bind (Sound server d) _ _ (of_error-Each R (Sound server d) server.patch_error)
          (λ _ _. Each-stop R _ (Sound server d) requeue))

  Each-after_cleanup :
      (outcome : List Text × List Text)
      → known d ≡ some true
      → All (λ hash. hash ≢ d.hash) outcome.0
      → Each (Sound server d) (after_cleanup {R = R} server d.config_check_results outcome)
  unfolding after_cleanup
  Each-after_cleanup (removed, (e ∷ errs)) k h = Each-give R (Sound server d) tt
  Each-after_cleanup ([], []) k h = Each-give R (Sound server d) tt
  Each-after_cleanup ((hash ∷ removed), []) k h =
      Each-patch_status _
        (inl (k, delete_all-lookup d.hash (hash ∷ removed) d.config_check_results h ∙ k))

  Each-after_check :
      (r : ConfigCheckResult)
      → Returns (config_check {R = R} server d.hash) r
      → Each (Sound server d) (after_check {R = R} server d.hash d.config_check_results r)
  unfolding after_check
  Each-after_check r h = elim (Bool-cases r.ready) [
    | inl p ↦ rw p (
        Each-patch_status _ (
          inr (
            r.valid,
            rw (lookup-insert, eq_refl) refl,
            config_check-Verdict R server d.hash r h p,
          )))
    | inr p ↦ rw p (Each-stop R _ (Sound server d) requeue_after_minute)
  ]

  pub Each-check_config :
      (o : Option Bool)
      → known d ≡ o
      → Each (Sound server d) (check_config {R = R} server d.hash d.config_check_results o)
  unfolding check_config
  Each-check_config (some false) k = Each-stop R _ (Sound server d) _
  Each-check_config (some true) k =
      Each-bind (Sound server d) _ _
        (config_check_cleanup-Each R server d.hash (Sound server d) (λ o ne. (ne, k))
          (keys d.config_check_results))
        (λ outcome h. Each-after_cleanup outcome k (cleanup-removed R server d.hash _ outcome h))
  Each-check_config none k =
      Each-bind (Sound server d) _ _
        (config_check-Each R server d.hash (Sound server d) (λ o e. (e, k)))
        (λ r h. Each-after_check r h)

-- ===== src/Fluentd/Verdict.antt =====
-- What the config check asks for, and what its results rest on.
use logging_operator.Base.{
  Text, ◌≡◌, refl, ap, subst, Bool, true, false, List, ◌⊎◌, inl, inr, Bool-cases,
}
use logging_operator.Fluentd.Trace.{
  CheckObject, check_secret, check_output_secret, check_pod, created, ask,
}
use logging_operator.Fluentd.ConfigCheck.{
  CheckServer, ConfigCheckResult, config_check, PodPhase, pod_succeeded, pod_failed, pod_pending,
  pod_running, pod_unknown, other_phase, PodReply, found, no_pod, get_failed, Created, made,
  already_exists, create_failed, phase_result, pod_created, with_pod, with_pods, back_off,
}
use logging_operator.Fluentd.Events.{Returns, Returns-then, Returns-give, Returns-stop}

-- The hash that an object of a check is for
abbrev pub hash_of : CheckObject → Text
hash_of (check_secret hash) = hash
hash_of (check_output_secret hash) = hash
hash_of (check_pod hash) = hash

-- A result is that of the pod's phase.
abbrev pub IsVerdict : CheckServer → Text → Bool → Type 0
IsVerdict server hash true = server.get_pod hash ≡ found pod_succeeded
IsVerdict server hash false = server.get_pod hash ≡ found pod_failed

module _ (R : Type 0) (server : CheckServer) (hash : Text) where
  phase_result-Verdict :
      (phase : PodPhase) (r : ConfigCheckResult)
      → server.get_pod hash ≡ found phase
      → Returns (phase_result {R = R} phase) r
      → r.ready ≡ true
      → IsVerdict server hash r.valid
  unfolding phase_result
  phase_result-Verdict pod_succeeded r e h k =
      subst (IsVerdict server hash) (ap (λ (r : ConfigCheckResult). r.valid) (Returns-give R _ r h))
        e
  phase_result-Verdict pod_pending r e h k =
      let h' = ap (λ (r : ConfigCheckResult). r.ready) (Returns-give R _ r h) in absurd (cc (h', k))
  phase_result-Verdict pod_running r e h k =
      let h' = ap (λ (r : ConfigCheckResult). r.ready) (Returns-give R _ r h) in absurd (cc (h', k))
  phase_result-Verdict pod_failed r e h k =
      subst (IsVerdict server hash) (ap (λ (r : ConfigCheckResult). r.valid) (Returns-give R _ r h))
        e
  phase_result-Verdict pod_unknown r e h k = absurd (Returns-stop R _ r h)
  phase_result-Verdict other_phase r e h k = absurd (Returns-stop R _ r h)

  pod_created-unready :
      (c : Created) (r : ConfigCheckResult) → Returns (pod_created {R = R} c) r → r.ready ≡ true → ⊥
  unfolding pod_created
  pod_created-unready made r h k =
      let h' = ap (λ (r : ConfigCheckResult). r.ready) (Returns-give R _ r h) in absurd (cc (h', k))
  pod_created-unready already_exists r h k = absurd (Returns-stop R _ r h)
  pod_created-unready (create_failed e) r h k = absurd (Returns-stop R _ r h)

  with_pod-Verdict :
      (reply : PodReply) (r : ConfigCheckResult)
      → server.get_pod hash ≡ reply
      → Returns (with_pod {R = R} server hash reply) r
      → r.ready ≡ true
      → IsVerdict server hash r.valid
  unfolding with_pod
  with_pod-Verdict (found phase) r e h k = phase_result-Verdict phase r e h k
  with_pod-Verdict (get_failed e) r _ h k = absurd (Returns-stop R _ r h)
  with_pod-Verdict no_pod r e h k = absurd (
      pod_created-unready (server.create (check_pod hash)) r
        (Returns-then (ask (created (check_pod hash)))
          (pod_created (server.create (check_pod hash))) r h)
        k)

  with_pods-Verdict :
      (pods : List PodPhase ⊎ Text) (r : ConfigCheckResult)
      → Returns (with_pods {R = R} server hash pods) r
      → r.ready ≡ true
      → IsVerdict server hash r.valid
  unfolding with_pods
  with_pods-Verdict (inr e) r h k = absurd (Returns-stop R _ r h)
  with_pods-Verdict (inl pods) r h k = elim (Bool-cases (back_off pods)) [
    | inl p ↦
        (let h' = ap (λ (r : ConfigCheckResult). r.ready) (Returns-give R _ r (rw p at h)) in
          absurd (cc (h', k)))
    | inr p ↦ with_pod-Verdict (server.get_pod hash) r refl (rw p at h) k
  ]

  -- A result that is ready is that of the phase of the pod.
  pub config_check-Verdict :
      (r : ConfigCheckResult)
      → Returns (config_check {R = R} server hash) r
      → r.ready ≡ true
      → IsVerdict server hash r.valid
  unfolding config_check
  config_check-Verdict r h k =
      with_pods-Verdict (server.list_pods hash) r
        (Returns-then _ _ r (
          Returns-then _ _ r
            (Returns-then _ _ r (Returns-then _ _ r (Returns-then _ _ r (Returns-then _ _ r h))))))
        k

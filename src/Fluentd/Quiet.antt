-- ===== src/Fluentd/Quiet.antt =====
-- Which objects of a check are created and deleted.
use logging_operator.Base.{
  Text, ◌==◌, eq_iff, ◌≡◌, ◌≢◌, refl, Option, none, some, List, [], ◌∷◌, ◌⊎◌, inl, inr, Bool-cases,
}
use logging_operator.Fluentd.Trace.{
  CheckObject, check_secret, check_output_secret, check_pod, Event, created, deleted, failed,
  panicked, Trace, of_error, of_pointer,
}
use logging_operator.Fluentd.ConfigCheck.{
  CheckServer, config_check, PodPhase, pod_succeeded, pod_failed, pod_pending, pod_running,
  pod_unknown, other_phase, PodReply, found, no_pod, get_failed, Created, made, already_exists,
  create_failed, phase_result, pod_created, with_pod, with_pods, back_off, unless_exists,
}
use logging_operator.Fluentd.Cleanup.{
  delete_error, delete_then, cleanup_hash, config_check_cleanup, unless_error,
}
use logging_operator.Fluentd.Events.{Each, Each-bind, Each-give, Each-stop, Each-ask}
use logging_operator.Fluentd.Verdict.{hash_of}

module _ (R : Type 0) (P : Event → Type 0) where
  pub of_error-Each : (e : Option Text) → Each {R = R} P (of_error e)
  unfolding of_error
  of_error-Each none = Each-give R P tt
  of_error-Each (some e) = Each-stop R _ P (failed e)

  of_pointer-Each : {A : Type 0} (o : Option A) → Each {R = R} P (of_pointer o)
  unfolding of_pointer
  of_pointer-Each none = Each-stop R _ P panicked
  of_pointer-Each (some a) = Each-give R P tt

  unless_exists-Each : (c : Created) → Each {R = R} P (unless_exists c)
  unfolding unless_exists
  unless_exists-Each made = Each-give R P tt
  unless_exists-Each already_exists = Each-give R P tt
  unless_exists-Each (create_failed e) = Each-stop R _ P (failed e)

  pod_created-Each : (c : Created) → Each {R = R} P (pod_created c)
  unfolding pod_created
  pod_created-Each made = Each-give R P _
  pod_created-Each already_exists = Each-stop R _ P _
  pod_created-Each (create_failed e) = Each-stop R _ P _

  phase_result-Each : (phase : PodPhase) → Each {R = R} P (phase_result phase)
  unfolding phase_result
  phase_result-Each pod_succeeded = Each-give R P _
  phase_result-Each pod_pending = Each-give R P _
  phase_result-Each pod_running = Each-give R P _
  phase_result-Each pod_failed = Each-give R P _
  phase_result-Each pod_unknown = Each-stop R _ P _
  phase_result-Each other_phase = Each-stop R _ P _

-- What a check creates is for its hash.
module _ (R : Type 0) (server : CheckServer) (hash : Text) (P : Event → Type 0)
    (own : (o : CheckObject) → hash_of o ≡ hash → P (created o)) where
  with_pod-Each : (reply : PodReply) → Each {R = R} P (with_pod server hash reply)
  unfolding with_pod
  with_pod-Each (found phase) = phase_result-Each R P phase
  with_pod-Each (get_failed e) = Each-stop R _ P (failed e)
  with_pod-Each no_pod =
      Each-bind P _ _ (Each-ask R P _ (own (check_pod hash) refl))
        (λ _ _. pod_created-Each R P (server.create (check_pod hash)))

  with_pods-Each : (pods : List PodPhase ⊎ Text) → Each {R = R} P (with_pods server hash pods)
  unfolding with_pods
  with_pods-Each (inr e) = Each-stop R _ P (failed e)
  with_pods-Each (inl pods) = elim (Bool-cases (back_off pods)) [
    | inl p ↦ rw p (Each-give R P _)
    | inr p ↦ rw p (with_pod-Each (server.get_pod hash))
  ]

  pub config_check-Each : Each {R = R} P (config_check server hash)
  unfolding config_check
  config_check-Each = Each-bind P _ _ (of_error-Each R P server.config_secret_error) (λ _ _.
      Each-bind P _ _ (Each-ask R P _ (own (check_secret hash) refl)) (λ _ _.
        Each-bind P _ _ (unless_exists-Each R P (server.create (check_secret hash))) (λ _ _.
          Each-bind P _ _ (of_pointer-Each R P server.secrets) (λ _ _.
            Each-bind P _ _ (Each-ask R P _ (own (check_output_secret hash) refl)) (λ _ _.
              Each-bind P _ _ (unless_exists-Each R P (server.create (check_output_secret hash)))
                (λ _ _. with_pods-Each (server.list_pods hash)))))))

-- What a cleanup deletes is for other hashes.
module _ (R : Type 0) (server : CheckServer) (current : Text) (P : Event → Type 0)
    (other : (o : CheckObject) → hash_of o ≢ current → P (deleted o)) where
  unless_error-Each :
      (e : Option Text) (t : Trace R (Option Text)) → Each P t → Each P (unless_error e t)
  unfolding unless_error
  unless_error-Each none t h = h
  unless_error-Each (some e) t h = Each-give R P (some e)

  delete_then-Each :
      (o : CheckObject) (t : Trace R (Option Text))
      → hash_of o ≢ current
      → Each P t
      → Each P (delete_then server o t)
  unfolding delete_then
  delete_then-Each o t ne h =
      Each-bind P _ _ (Each-ask R P _ (other o ne))
        (λ _ _. unless_error-Each (delete_error (server.delete o)) t h)

  cleanup_hash-Each : (hash : Text) → hash ≢ current → Each {R = R} P (cleanup_hash server hash)
  unfolding cleanup_hash
  cleanup_hash-Each hash ne = unless_error-Each server.config_secret_error _ (
      delete_then-Each (check_secret hash) _ ne (
        Each-bind P _ _ (of_pointer-Each R P server.secrets) (λ _ _.
          delete_then-Each (check_output_secret hash) _ ne
            (delete_then-Each (check_pod hash) _ ne (Each-give R P none)))))

  pub config_check_cleanup-Each :
      (hashes : List Text) → Each {R = R} P (config_check_cleanup server current hashes)
  unfolding config_check_cleanup
  config_check_cleanup-Each [] = Each-give R P ([], [])
  config_check_cleanup-Each (hash ∷ hashes) = elim (Bool-cases (hash == current)) [
    | inl p ↦ rw p (config_check_cleanup-Each hashes)
    | inr p ↦ rw p (
        Each-bind P _ _ (cleanup_hash-Each hash (λ e. absurd (cc (p, (eq_iff hash current).1 e))))
          (λ _ _. Each-bind P _ _ (config_check_cleanup-Each hashes) (λ _ _. Each-give R P _)))
  ]

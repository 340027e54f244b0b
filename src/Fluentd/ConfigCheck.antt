-- ===== src/Fluentd/ConfigCheck.antt =====
-- appconfigmap.go: the check of a configuration by a pod, and the cleanup of earlier checks.
use logging_operator.Base.{
  ℕ, ◌+◌, ltb, Text, codes, Bool, true, false, Option, List, [], ◌∷◌, ◌⊎◌, inl, inr, if◌then◌else◌,
}
use logging_operator.Fluentd.Secrets.{MountSecret}
use logging_operator.Fluentd.Trace.{
  CheckObject, check_secret, check_output_secret, check_pod, created, failed, Trace, give, stop,
  ask, ◌>>=◌, of_error, of_pointer,
}

pub data PodPhase : Type 0 where
  pod_pending : PodPhase
  pod_running : PodPhase
  pod_succeeded : PodPhase
  pod_failed : PodPhase
  pod_unknown : PodPhase
  other_phase : PodPhase

-- What the API server answers; the texts are the errors.
pub data Created : Type 0 where
  made : Created
  already_exists : Created
  create_failed : Text → Created

pub data Deleted : Type 0 where
  gone : Deleted
  not_there : Deleted
  delete_failed : Text → Deleted

pub data PodReply : Type 0 where
  found : PodPhase → PodReply
  no_pod : PodReply
  get_failed : Text → PodReply

-- The API server, and `generateConfigSecret`, which can fail. `secrets` is a pointer.
pub record CheckServer : Type 0 where
  pub create : CheckObject → Created
  pub delete : CheckObject → Deleted
  pub list_pods : Text → List PodPhase ⊎ Text
  pub get_pod : Text → PodReply
  pub config_secret_error : Option Text
  pub secrets : Option (List MountSecret)
  pub patch_error : Option Text

pub record ConfigCheckResult : Type 0 where
  pub valid : Bool
  pub ready : Bool

is_pod_pending : PodPhase → Bool
is_pod_pending pod_pending = true
is_pod_pending _ = false

is_pod_running : PodPhase → Bool
is_pod_running pod_running = true
is_pod_running _ = false

-- `podsByPhase[phase]`
unfoldable pub count_phase : (PodPhase → Bool) → List PodPhase → ℕ
count_phase is [] = 0
count_phase is (p ∷ ps) = let rest = count_phase is ps in if is p then rest + 1 else rest

unfoldable pub back_off : List PodPhase → Bool
unfolding count_phase is_pod_pending is_pod_running
back_off pods =
    if ltb 0 (count_phase is_pod_pending pods)
    then true
    else ltb 0 (count_phase is_pod_running pods)

module _ {R : Type 0} where
  unfoldable pub unless_exists : Created → Trace R (Unit {0})
  unless_exists made = give tt
  unless_exists already_exists = give tt
  unless_exists (create_failed e) = stop (failed e)

  unfoldable pub pod_created : Created → Trace R ConfigCheckResult
  pod_created made = give (record { valid = false; ready = false })
  pod_created already_exists = stop (failed (codes "already exists"))
  pod_created (create_failed e) = stop (failed e)

  -- What a pod's phase says
  unfoldable pub phase_result : PodPhase → Trace R ConfigCheckResult
  phase_result pod_succeeded = give (record { valid = true; ready = true })
  phase_result pod_pending = give (record { valid = false; ready = false })
  phase_result pod_running = give (record { valid = false; ready = false })
  phase_result pod_failed = give (record { valid = false; ready = true })
  phase_result pod_unknown = stop (failed (codes "invalid pod status"))
  phase_result other_phase = stop (failed (codes "invalid pod status"))

module _ {R : Type 0} (server : CheckServer) where
  unfoldable pub with_pod : Text → PodReply → Trace R ConfigCheckResult
  unfolding phase_result pod_created
  with_pod hash (found phase) = phase_result phase
  with_pod hash (get_failed e) = stop (failed e)
  with_pod hash no_pod = do
    _ ← ask (created (check_pod hash))
    pod_created (server.create (check_pod hash))

  unfoldable pub with_pods : Text → List PodPhase ⊎ Text → Trace R ConfigCheckResult
  unfolding back_off with_pod
  with_pods hash (inr e) = stop (failed e)
  with_pods hash (inl pods) =
      if back_off pods
      then give (record { valid = false; ready = false })
      else with_pod hash (server.get_pod hash)

  -- `configCheck`
  unfoldable pub config_check : Text → Trace R ConfigCheckResult
  unfolding of_error of_pointer unless_exists with_pods
  config_check hash = do
    _ ← of_error server.config_secret_error
    _ ← ask (created (check_secret hash))
    _ ← unless_exists (server.create (check_secret hash))
    _ ← of_pointer server.secrets
    _ ← ask (created (check_output_secret hash))
    _ ← unless_exists (server.create (check_output_secret hash))
    with_pods hash (server.list_pods hash)

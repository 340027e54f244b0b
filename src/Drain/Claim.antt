-- ===== src/Drain/Claim.antt =====
-- The body of the loop of `reconcileDrain`: what is done for one claim, in order.
use logging_operator.Base.{
  Text, Bool, true, false, not, ◌&&◌, Option, none, some, List, [], ◌∷◌, ◌++◌, ◌⊎◌, inl, inr,
  if◌then◌else◌,
}
use logging_operator.Base.Int.{ℤ}
use logging_operator.Drain.{
  PodVolume, PersistentVolumeClaim, Job, DrainSpec, job_successfully_completed, marked_as_drained,
  is_positive, placeholder_name, drainer_name, Request, unmark, mark, delete_job,
  remove_placeholder, ensure_placeholder, create_job, background, foreground, Task, unmarking,
  marking, deleting_completed, deleting_unneeded, removing_placeholder, ensuring_placeholder,
  assembling, creating, DrainError, task_failed, draining_failed,
}

-- What the cluster and the libraries do. `send` is the error that `IgnoreNotFound` leaves of a patch
-- or a deletion, `reconcile_resource` is `ReconcileResource`, `extend` is `ApplyVolumeForPodSpec` of all the
-- extra volumes.
pub record Cluster (R : Type 0) : Type 0 where
  pub send : Request → Option Text
  pub reconcile_resource : Request → Option R × Option Text
  pub extend : List PodVolume → List PodVolume ⊎ Text

-- The requests that were made, what was combined into the result, and whether the code panicked
pub record Run (R : Type 0) : Type 0 where
  pub requests : List Request
  pub combined : List (Option R × Option DrainError)
  pub panicked : Bool

unfoldable pub job_error : Option Text → PersistentVolumeClaim → Option DrainError
job_error none pvc = none
job_error (some e) pvc = some (task_failed creating pvc.name e)

module _ {R : Type 0} where
  abbrev pub stop : Run R
  stop = record { requests = []; combined = []; panicked = false }

  abbrev pub panics : Run R
  panics = record { requests = []; combined = []; panicked = true }

  abbrev pub combine : Option R → Option DrainError → Run R
  combine result error = record { requests = []; combined = (result, error) ∷ []; panicked = false }

  -- A request, and what follows it
  abbrev pub after_request : Request → Run R → Run R
  after_request request run = record run { requests = request ∷ run.requests }

  abbrev pub on_error : (Text → Run R) → Run R → Option Text → Run R
  on_error failed next none = next
  on_error failed next (some e) = failed e

  -- A patch or a deletion: its error ends the claim's round.
  unfoldable pub sent : Cluster R → Request → Task → PersistentVolumeClaim → Run R → Run R
  sent cluster request task pvc next = after_request request (
      on_error (λ e. combine none (some (task_failed task pvc.name e))) next (cluster.send request))

  -- `ReconcileResource` of the placeholder pod: its result is combined only with an error, which
  -- ends the claim's round.
  unfoldable pub ensured : Cluster R → Request → Task → PersistentVolumeClaim → Run R → Run R
  ensured cluster request task pvc next =
      let (result, error) = cluster.reconcile_resource request in
      after_request request
        (on_error (λ e. combine result (some (task_failed task pvc.name e))) next error)

  unfoldable pub without_placeholder : Cluster R → DrainSpec → PersistentVolumeClaim → Run R
  unfolding ensured placeholder_name
  without_placeholder cluster spec pvc = elim (placeholder_name spec pvc) [
    | some name ↦ ensured cluster (remove_placeholder name pvc) removing_placeholder pvc stop
    | none ↦ panics
  ]

  -- `drainerJobFor`: a new job, on the claim
  unfoldable pub drainer_job_for :
      Cluster R → DrainSpec → Text → PersistentVolumeClaim → Option (Job ⊎ Text)
  unfolding drainer_name
  drainer_job_for cluster spec buf_vol_name pvc =
      elim (cluster.extend
        (spec.generated_volumes ++ (record { name = buf_vol_name; claim = some pvc.name }) ∷ [])) [
          | inr e ↦ some (inr e)
          | inl volumes ↦ elim (drainer_name spec pvc) [
            | none ↦ none
            | some name ↦ some (
                inl (record {
                  name = name;
                  volumes = volumes;
                  has_completion_time = false;
                  succeeded = ℤ.pos 0;
                  failed = ℤ.pos 0;
                }))
          ]
        ]

  unfoldable pub start_job : Cluster R → PersistentVolumeClaim → Option (Job ⊎ Text) → Run R
  unfolding job_error
  start_job cluster pvc none = panics
  start_job cluster pvc (some (inr e)) = combine none (some (task_failed assembling pvc.name e))
  start_job cluster pvc (some (inl job)) =
      let (result, error) = cluster.reconcile_resource (create_job job pvc) in
      after_request (create_job job pvc) (combine result (job_error error pvc))

  unfoldable pub with_drainer : Cluster R → DrainSpec → Text → PersistentVolumeClaim → Run R
  unfolding ensured placeholder_name start_job drainer_job_for
  with_drainer cluster spec buf_vol_name pvc = elim (placeholder_name spec pvc) [
    | none ↦ panics
    | some name ↦
        ensured cluster (ensure_placeholder name pvc) ensuring_placeholder pvc
          (start_job cluster pvc (drainer_job_for cluster spec buf_vol_name pvc))
  ]

  -- The claim has a job.
  unfoldable pub with_job : Cluster R → DrainSpec → PersistentVolumeClaim → Bool → Job → Run R
  unfolding sent without_placeholder job_successfully_completed is_positive
  with_job cluster spec pvc in_use job =
      if job_successfully_completed job
      then sent cluster (mark pvc) marking pvc (
          sent cluster (delete_job background job pvc) deleting_completed pvc
            (without_placeholder cluster spec pvc))
      else if in_use
      then sent cluster (delete_job foreground job pvc) deleting_unneeded pvc
          (without_placeholder cluster spec pvc)
      else if is_positive job.failed
      then combine none (some (draining_failed pvc.name job.failed))
      else stop

  unfoldable pub drain_claim :
      Cluster R → DrainSpec → Text → PersistentVolumeClaim → Bool → Option Job → Run R
  unfolding sent with_job with_drainer marked_as_drained
  drain_claim cluster spec buf_vol_name pvc in_use (some job) =
      if marked_as_drained pvc && in_use
      then sent cluster (unmark pvc) unmarking pvc stop
      else with_job cluster spec pvc in_use job
  drain_claim cluster spec buf_vol_name pvc in_use none =
      if marked_as_drained pvc && in_use
      then sent cluster (unmark pvc) unmarking pvc stop
      else if not (marked_as_drained pvc) && not in_use
      then with_drainer cluster spec buf_vol_name pvc
      else stop

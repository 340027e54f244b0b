-- ===== src/Drain/Plan.antt =====
-- The requests of a claim's round as a table.
use logging_operator.Base.{
  Text, ◌≡◌, refl, ap, Bool, true, false, Option, none, some, List, [], ◌∷◌, inl, inr,
  if◌then◌else◌, Bool-cases,
}
use logging_operator.Drain.{
  PersistentVolumeClaim, Job, DrainSpec, job_successfully_completed, marked_as_drained, is_positive,
  placeholder_name, Request, unmark, mark, delete_job, remove_placeholder, ensure_placeholder,
  create_job, background, foreground,
}
use logging_operator.Drain.Claim.{
  Cluster, sent, ensured, without_placeholder, start_job, with_drainer, with_job, drain_claim,
  drainer_job_for,
}

-- No request fails.
pub record Succeeds {R : Type 0} (cluster : Cluster R) : Type 0 where
  pub sends : (request : Request) → cluster.send request ≡ none
  pub reconciles : (request : Request) → (cluster.reconcile_resource request).1 ≡ none

-- What is asked for a claim, by its mark, its use and its job
unfoldable pub plan :
    PersistentVolumeClaim → Text → Job → (marked used : Bool) → Option Job → List Request
unfolding job_successfully_completed
plan pvc name new true true job = unmark pvc ∷ []
plan pvc name new false false none = ensure_placeholder name pvc ∷ create_job new pvc ∷ []
plan pvc name new false true none = []
plan pvc name new true false none = []
plan pvc name new true false (some job) =
    if job_successfully_completed job
    then mark pvc ∷ delete_job background job pvc ∷ remove_placeholder name pvc ∷ []
    else []
plan pvc name new false used (some job) =
    if job_successfully_completed job
    then mark pvc ∷ delete_job background job pvc ∷ remove_placeholder name pvc ∷ []
    else if used
    then delete_job foreground job pvc ∷ remove_placeholder name pvc ∷ []
    else []

module _ {R : Type 0} (cluster : Cluster R) (success : Succeeds cluster) (spec : DrainSpec)
    (buf_vol_name : Text) (pvc : PersistentVolumeClaim) (name : Text) (new : Job)
    (named : placeholder_name spec pvc ≡ some name)
    (made : drainer_job_for cluster spec buf_vol_name pvc ≡ some (inl new)) where
  without_placeholder-requests :
      (without_placeholder cluster spec pvc).requests ≡ remove_placeholder name pvc ∷ []
  unfolding ensured without_placeholder
  without_placeholder-requests =
      rw (without_placeholder, named, ensured, success.reconciles (remove_placeholder name pvc))
        refl

  with_drainer-requests :
      (with_drainer cluster spec buf_vol_name pvc).requests
      ≡ ensure_placeholder name pvc ∷ create_job new pvc ∷ []
  unfolding ensured start_job with_drainer
  with_drainer-requests =
      rw (with_drainer, named, ensured, success.reconciles (ensure_placeholder name pvc), made) refl

  with_job-requests :
      (used : Bool) (job : Job)
      → (with_job cluster spec pvc used job).requests ≡ (
          if job_successfully_completed job
          then mark pvc ∷ delete_job background job pvc ∷ remove_placeholder name pvc ∷ []
          else if used
          then delete_job foreground job pvc ∷ remove_placeholder name pvc ∷ []
          else [])
  unfolding with_job sent
  with_job-requests used job = elim (Bool-cases (job_successfully_completed job)) [
    | inl p ↦ rw p (
        rw (sent, success.sends (mark pvc), success.sends (delete_job background job pvc))
          (ap (λ r. mark pvc ∷ delete_job background job pvc ∷ r) without_placeholder-requests))
    | inr p ↦ rw p (elim (Bool-cases used) [
      | inl u ↦ rw u (
          rw (sent, success.sends (delete_job foreground job pvc))
            (ap (λ r. delete_job foreground job pvc ∷ r) without_placeholder-requests))
      | inr u ↦
          rw u
            (elim (Bool-cases (is_positive job.failed)) [ inl f ↦ rw f refl | inr f ↦ rw f refl ])
    ])
  ]

  -- Where no request fails, the claim's name has a dash and its job can be made, the requests of the
  -- round for a claim are those of the plan: the unmarking of a marked claim in use; the marking, the
  -- job's deletion and the placeholder's removal for a completed job; the last two for a job of a
  -- claim in use; a placeholder and a job for a claim with neither mark, use nor job; else nothing.
  pub drain_claim-plan :
      (marked used : Bool) (o : Option Job)
      → marked_as_drained pvc ≡ marked
      → (drain_claim cluster spec buf_vol_name pvc used o).requests
        ≡ plan pvc name new marked used o
  unfolding drain_claim plan sent
  drain_claim-plan true true none e = rw (e, sent, success.sends (unmark pvc)) refl
  drain_claim-plan true true (some job) e = rw (e, sent, success.sends (unmark pvc)) refl
  drain_claim-plan false false none e = rw e with_drainer-requests
  drain_claim-plan false true none e = rw e refl
  drain_claim-plan true false none e = rw e refl
  drain_claim-plan true false (some job) e = rw e (with_job-requests false job)
  drain_claim-plan false used (some job) e = rw e (with_job-requests used job)

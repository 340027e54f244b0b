-- ===== src/Drain/Reasons.antt =====
-- What a round of the drain asks for, and why.
use logging_operator.Base.{
  Text, ◌≡◌, refl, Bool, true, false, Option, none, some, List, [], ◌∷◌, ◌⊎◌, inl, inr, Bool-cases,
  ◌↔◌, ◌≢◌,
}
use logging_operator.Base.Lists.{All, All-append}
use logging_operator.Base.Assoc.{Assoc, lookup}
use logging_operator.Drain.{
  PersistentVolumeClaim, Job, DrainSpec, job_successfully_completed, marked_as_drained, is_positive,
  placeholder_name, Request, unmark, mark, delete_job, remove_placeholder, ensure_placeholder,
  create_job, Task,
}
use logging_operator.Drain.Claim.{
  Cluster, Run, stop, sent, ensured, without_placeholder, start_job, with_drainer, with_job,
  drain_claim, on_error, after_request,
}
use logging_operator.Drain.Reconcile.{in_use, append_run, drain_claims}

-- What the code has read of a claim: whether it is in use, and its jobs.
pub record View : Type 1 where
  pub IsUsed : PersistentVolumeClaim → Type 0
  pub IsJobOf : Job → PersistentVolumeClaim → Type 0

-- A claim that is to be drained
abbrev pub ToDrain : View → PersistentVolumeClaim → Type 0
ToDrain v pvc =
    (marked_as_drained pvc ≡ false) × (v.IsUsed pvc → ⊥) × ((job : Job) → v.IsJobOf job pvc → ⊥)

-- A job of the claim that is not needed: it is done, or the claim is in use.
abbrev pub Unneeded : View → Job → PersistentVolumeClaim → Type 0
Unneeded v job pvc = v.IsJobOf job pvc × ((job_successfully_completed job ≡ true) ⊎ v.IsUsed pvc)

-- Why a request is made.
abbrev pub Reason : View → Request → Type 0
Reason v (unmark pvc) = (marked_as_drained pvc ≡ true) × v.IsUsed pvc
Reason v (mark pvc) = (job : Job) × v.IsJobOf job pvc × (job_successfully_completed job ≡ true)
Reason v (delete_job how job pvc) = Unneeded v job pvc
Reason v (remove_placeholder name pvc) = (job : Job) × Unneeded v job pvc
Reason v (ensure_placeholder name pvc) = ToDrain v pvc
Reason v (create_job job pvc) = ToDrain v pvc

module _ {R : Type 0} (v : View) (cluster : Cluster R) (spec : DrainSpec)
    (buf_vol_name : Text) where
  abbrev pub Reasoned : Run R → Type 0
  Reasoned run = All (Reason v) run.requests

  Reasoned-after :
      (request : Request) (o : Option Text) (failed : Text → Run R) (next : Run R)
      → ((e : Text) → Reasoned (failed e))
      → Reason v request
      → Reasoned next
      → Reasoned (after_request request (on_error failed next o))
  Reasoned-after request none failed next h r n = (r, n)
  Reasoned-after request (some e) failed next h r n = (r, h e)

  Reasoned-sent :
      (request : Request) (task : Task) (pvc : PersistentVolumeClaim) (next : Run R)
      → Reason v request
      → Reasoned next
      → Reasoned (sent cluster request task pvc next)
  unfolding sent
  Reasoned-sent request task pvc next r n =
      Reasoned-after request (cluster.send request) _ next (λ e. tt) r n

  Reasoned-ensured :
      (request : Request) (task : Task) (pvc : PersistentVolumeClaim) (next : Run R)
      → Reason v request
      → Reasoned next
      → Reasoned (ensured cluster request task pvc next)
  unfolding ensured
  Reasoned-ensured request task pvc next r n =
      Reasoned-after request (cluster.reconcile_resource request).1 _ next (λ e. tt) r n

  Reasoned-without_placeholder :
      (pvc : PersistentVolumeClaim) (job : Job) (o : Option Text)
      → placeholder_name spec pvc ≡ o
      → Unneeded v job pvc
      → Reasoned (without_placeholder cluster spec pvc)
  unfolding without_placeholder
  Reasoned-without_placeholder pvc job none e u = rw (without_placeholder, e) tt
  Reasoned-without_placeholder pvc job (some name) e u =
      rw (without_placeholder, e) (Reasoned-ensured _ _ pvc stop (job, u) tt)

  Reasoned-start_job :
      (pvc : PersistentVolumeClaim) (o : Option (Job ⊎ Text))
      → ToDrain v pvc
      → Reasoned (start_job cluster pvc o)
  unfolding start_job
  Reasoned-start_job pvc none t = tt
  Reasoned-start_job pvc (some (inr e)) t = tt
  Reasoned-start_job pvc (some (inl job)) t = (t, tt)

  Reasoned-with_drainer :
      (pvc : PersistentVolumeClaim) (o : Option Text)
      → placeholder_name spec pvc ≡ o
      → ToDrain v pvc
      → Reasoned (with_drainer cluster spec buf_vol_name pvc)
  unfolding with_drainer
  Reasoned-with_drainer pvc none e t = rw (with_drainer, e) tt
  Reasoned-with_drainer pvc (some name) e t =
      rw (with_drainer, e) (Reasoned-ensured _ _ pvc _ t (Reasoned-start_job pvc _ t))

  Reasoned-with_job :
      (pvc : PersistentVolumeClaim) (used : Bool) (job : Job)
      → (used ≡ true → v.IsUsed pvc)
      → v.IsJobOf job pvc
      → Reasoned (with_job cluster spec pvc used job)
  unfolding with_job
  Reasoned-with_job pvc used job h j = elim (Bool-cases (job_successfully_completed job)) [
    | inl p ↦ rw p (
        Reasoned-sent _ _ pvc _ (job, j, p)
          (Reasoned-sent _ _ pvc _ (j, inl p)
            (Reasoned-without_placeholder pvc job _ refl (j, inl p))))
    | inr p ↦ rw p (elim (Bool-cases used) [
      | inl u ↦ rw u (
          Reasoned-sent _ _ pvc _ (j, inr (h u))
            (Reasoned-without_placeholder pvc job _ refl (j, inr (h u))))
      | inr u ↦
          rw u (elim (Bool-cases (is_positive job.failed)) [ inl f ↦ rw f tt | inr f ↦ rw f tt ])
    ])
  ]

  Reasoned-drain_claim :
      (pvc : PersistentVolumeClaim) (used : Bool) (o : Option Job)
      → (used ≡ true) ↔ v.IsUsed pvc
      → ((job : Job) → o ≡ some job → v.IsJobOf job pvc)
      → ((job : Job) → v.IsJobOf job pvc → o ≢ none)
      → Reasoned (drain_claim cluster spec buf_vol_name pvc used o)
  unfolding drain_claim
  Reasoned-drain_claim pvc used (some job) h found all = elim (Bool-cases (marked_as_drained pvc)) [
    | inl d ↦ rw d (elim (Bool-cases used) [
      | inl u ↦ rw u (Reasoned-sent _ _ pvc stop (d, h.0 u) tt)
      | inr u ↦ rw u (Reasoned-with_job pvc false job (λ e. absurd (cc)) (found job refl))
    ])
    | inr d ↦ rw d (Reasoned-with_job pvc used job h.0 (found job refl))
  ]
  Reasoned-drain_claim pvc used none h found all = elim (Bool-cases (marked_as_drained pvc)) [
    | inl d ↦ rw d (elim (Bool-cases used) [
      | inl u ↦ rw u (Reasoned-sent _ _ pvc stop (d, h.0 u) tt)
      | inr u ↦ rw u tt
    ])
    | inr d ↦ rw d (elim (Bool-cases used) [
      | inl u ↦ rw u tt
      | inr u ↦ rw u (
          Reasoned-with_drainer pvc _ refl
            (d, λ i. absurd (cc (h.1 i, u)), λ job j. all job j refl))
    ])
  ]

  Reasoned-append : (a b : Run R) → Reasoned a → Reasoned b → Reasoned (append_run a b)
  unfolding append_run
  Reasoned-append a b ha hb = elim (Bool-cases a.panicked) [
    | inl p ↦ rw p ha
    | inr p ↦ rw p (All-append (Reason v) a.requests b.requests ha hb)
  ]

  pub Reasoned-drain_claims :
      (used : Assoc Bool) (jobs : Assoc Job) (pvcs : List PersistentVolumeClaim)
      → ((pvc : PersistentVolumeClaim) → (in_use pvc.name used ≡ true) ↔ v.IsUsed pvc)
      → ((pvc : PersistentVolumeClaim) (job : Job)
          → lookup pvc.name jobs ≡ some job
          → v.IsJobOf job pvc)
      → ((pvc : PersistentVolumeClaim) (job : Job)
          → v.IsJobOf job pvc
          → lookup pvc.name jobs ≢ none)
      → Reasoned (drain_claims cluster spec buf_vol_name used jobs pvcs)
  unfolding drain_claims
  Reasoned-drain_claims used jobs [] h found all = tt
  Reasoned-drain_claims used jobs (pvc ∷ pvcs) h found all =
      Reasoned-append _ _
        (Reasoned-drain_claim pvc (in_use pvc.name used) (lookup pvc.name jobs) (h pvc) (found pvc)
          (all pvc))
        (Reasoned-drain_claims used jobs pvcs h found all)

-- ===== src/Drain/InUse.antt =====
-- The drain of a claim that is in use, round after round, while its job may take time to go away.
use logging_operator.Base.{
  ℕ, zero, suc, ◌≤◌, arith, Text, ◌≡◌, refl, ap, ◌∙◌, Bool, true, false, Option, none, some, [],
  ◌⊎◌, inl, inr, Bool-cases,
}
use logging_operator.Base.Lists.{Has}
use logging_operator.Drain.{
  PersistentVolumeClaim, Job, DrainSpec, job_successfully_completed, marked_as_drained, delete_job,
  foreground, background, Propagation,
}
use logging_operator.Drain.Claim.{Cluster}
use logging_operator.Drain.Plan.{Succeeds, plan}
use logging_operator.Drain.Server.{Server, answer, asked, round, Named, Seen, Seen-unmarked}
use logging_operator.Drain.Rounds.{new_job, asked-plan}

-- What the server holds at the start of each round. Between the rounds only the drain marks claims and
-- makes jobs, but a job may change, as it does when it completes. A job whose deletion was asked for
-- is gone at some time after that: at once in the background, and when its pods are gone in the
-- foreground.
pub record Course (srv : Server) {R : Type 0} (cluster : Cluster R) (spec : DrainSpec)
    (buf_vol_name : Text) (w : ℕ → srv.State) : Type 0 where
  pub mark_kept :
      (n : ℕ)
      → marked_as_drained (srv.pvc (w (suc n)))
        ≡ marked_as_drained (srv.pvc (round srv cluster spec buf_vol_name true (w n)))
  pub no_new_job :
      (n : ℕ)
      → srv.job (round srv cluster spec buf_vol_name true (w n)) ≡ none
      → srv.job (w (suc n)) ≡ none
  pub deleted_at_last :
      (n : ℕ) (how : Propagation) (j : Job) (p : PersistentVolumeClaim)
      → Has (λ r. r ≡ delete_job how j p) (asked srv cluster spec buf_vol_name true (w n))
      → (k : ℕ) × (n ≤ k) × (srv.job (w k) ≡ none)

plan-deletes :
    (pvc : PersistentVolumeClaim) (name : Text) (new job : Job)
    → (how : Propagation) × Has
        (λ r. r ≡ delete_job how job pvc)
        (plan pvc name new false true (some job))
unfolding plan
plan-deletes pvc name new job = elim (Bool-cases (job_successfully_completed job)) [
  | inl p ↦ (background, rw p (inr (inl refl)))
  | inr p ↦ (foreground, rw p (inl refl))
]

before_or_at : (a b : ℕ) → a ≤ suc b → (a ≤ b) ⊎ (a ≡ suc b)
before_or_at a b h = omega (arith, h)

module _ (srv : Server) where
  module _ {R : Type 0} (cluster : Cluster R) (success : Succeeds cluster) (spec : DrainSpec)
      (buf_vol_name : Text) (named : Named srv cluster spec buf_vol_name) where
    unmarked_by_round :
        (o : Option Job) (w : srv.State)
        → Seen srv w (true, o)
        → Seen srv (round srv cluster spec buf_vol_name true w) (false, o)
    unfolding round
    unmarked_by_round o w (e, j) =
        let (name, same) = asked-plan srv cluster success spec buf_vol_name named true true w e in
        rw (same, j)
          (Seen-unmarked srv w name (new_job srv cluster success spec buf_vol_name named w) o j)

    -- Without mark and job, nothing is asked for.
    nothing_asked :
        (w : srv.State) → Seen srv w (false, none) → asked srv cluster spec buf_vol_name true w ≡ []
    unfolding plan
    nothing_asked w (e, j) =
        let (name, same) = asked-plan srv cluster success spec buf_vol_name named true false w e in
        rw (same, j) refl

    jobless_round :
        (m : Bool) (w : srv.State)
        → Seen srv w (m, none)
        → Seen srv (round srv cluster spec buf_vol_name true w) (false, none)
    unfolding round answer
    jobless_round true w s = unmarked_by_round none w s
    jobless_round false w s = rw (nothing_asked w s) s

    module _ (w : ℕ → srv.State) (course : Course srv cluster spec buf_vol_name w) where
      jobless_next : (n : ℕ) → srv.job (w n) ≡ none → Seen srv (w (suc n)) (false, none)
      jobless_next n j =
          let (e, gone) = jobless_round (marked_as_drained (srv.pvc (w n))) (w n) (refl, j) in
          (course.mark_kept n ∙ e, course.no_new_job n gone)

      deletion_from :
          (n : ℕ) (o : Option Job) → Seen srv (w n) (false, o) → (k : ℕ) × (srv.job (w k) ≡ none)
      deletion_from n none (e, j) = (n, j)
      deletion_from n (some job) (e, j) =
          let (name, same) =
            asked-plan srv cluster success spec buf_vol_name named true false (w n) e in
          let (how, has) =
            plan-deletes (srv.pvc (w n)) name
              (new_job srv cluster success spec buf_vol_name named (w n)) job in
          let (k, later, gone) =
            course.deleted_at_last n how job (srv.pvc (w n)) (rw (same, j) has) in
          (k, gone)

      job_gone :
          (m : Bool) → marked_as_drained (srv.pvc (w 0)) ≡ m → (k : ℕ) × (srv.job (w k) ≡ none)
      job_gone false e = deletion_from 0 (srv.job (w 0)) (e, refl)
      job_gone true e =
          let (f, j) = unmarked_by_round (srv.job (w 0)) (w 0) (e, refl) in
          deletion_from 1 (srv.job (w 1)) (course.mark_kept 0 ∙ f, refl)

      stays : (k : ℕ) → srv.job (w k) ≡ none → (n : ℕ) → suc k ≤ n → Seen srv (w n) (false, none)
      stays k gone zero h = absurd (omega (arith, h))
      stays k gone (suc n) h = elim (before_or_at (suc k) n h) [
        | inl earlier ↦ jobless_next n (stays k gone n earlier).1
        | inr last ↦
            (let same : n ≡ k = omega (arith, last) in
              jobless_next n (ap (λ i. srv.job (w i)) same ∙ gone))
      ]

      -- Where no request fails, the claim of a running pod comes to rest, however long its job takes to
      -- be deleted: from some round on it has neither mark nor job, and nothing more is asked for.
      pub rounds-in_use :
          (from : ℕ) × ((n : ℕ)
            → from ≤ n
            → Seen srv (w n) (false, none) × (asked srv cluster spec buf_vol_name true (w n) ≡ []))
      rounds-in_use =
          let (k, gone) = job_gone (marked_as_drained (srv.pvc (w 0))) refl in
          (suc k, λ n h. let seen = stays k gone n h in (seen, nothing_asked (w n) seen))

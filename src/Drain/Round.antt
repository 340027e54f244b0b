-- ===== src/Drain/Round.antt =====
-- The whole of `reconcileDrain`: its requests have their reasons in what was listed.
use logging_operator.Base.{
  ℕ, Text, codes, ◌≡◌, ◌≢◌, refl, subst, not, ◌||◌, Option, none, some, List, [], inl, inr,
  Bool-cases,
}
use logging_operator.Base.Int.{ℤ}
use logging_operator.Base.Lists.{All, Has, Has-first}
use logging_operator.Base.Assoc.{Assoc, lookup}
use logging_operator.Drain.{PodVolume, PersistentVolumeClaim, Job, DrainSpec, qualified_name}
use logging_operator.Drain.Claim.{Cluster, Run}
use logging_operator.Drain.Reconcile.{
  add_claims, Drain, ran, StatefulSetReply, get_replica_count, count, reconcile_drain, or_unread,
  or_crashed,
}
use logging_operator.Drain.Uses.{
  Claims, InUse, in_use_iff, add_claims_found, add_claims_there, lookup-empty,
}
use logging_operator.Drain.Reasons.{View, Reason, Reasoned-drain_claims}

-- The claims in use and the jobs of claims among the pods, the replicas and the jobs listed
abbrev pub view_of : Text → Text → List (List PodVolume) → ℕ → List Job → View
view_of buf_vol_name sts pods n jobs = record {
  IsUsed = λ pvc. InUse buf_vol_name sts pods n pvc.name;
  IsJobOf = λ job pvc. Has (λ (j : Job). Claims buf_vol_name pvc.name j.volumes × (j ≡ job)) jobs;
}

module _ {R : Type 0} where
  crashed_ran :
      {A : Type 0} (o : Option A) (next : A → Drain R) (run : Run R)
      → or_crashed o next ≡ ran run
      → (a : A) × (o ≡ some a) × (next a ≡ ran run)
  unfolding or_crashed
  crashed_ran none next run h = absurd (cc)
  crashed_ran (some a) next run h = (a, refl, h)

  ran_injective : {a b : Run R} → ran a ≡ ran b → a ≡ b
  ran_injective e = cc

-- The lookup in the map of the jobs
abbrev JobMap : Text → List Job → Assoc Job → Type 0
JobMap buf_vol_name jobs m =
    add_claims (λ (job : Job). job.volumes) (λ job. job) buf_vol_name jobs [] ≡ some m

job_found :
    (buf_vol_name : Text) (jobs : List Job) (m : Assoc Job)
    → JobMap buf_vol_name jobs m
    → (pvc : PersistentVolumeClaim) (job : Job) → lookup pvc.name m ≡ some job
    → Has (λ (j : Job). Claims buf_vol_name pvc.name j.volumes × (j ≡ job)) jobs
job_found buf_vol_name jobs m made pvc job e =
    elim (add_claims_found (λ (j : Job). j.volumes) (λ j. j) buf_vol_name jobs [] m pvc.name job
      made e) [ inl has ↦ has | inr absent ↦ absurd (lookup-empty pvc.name job absent) ]

job_there :
    (buf_vol_name : Text) (jobs : List Job) (m : Assoc Job)
    → JobMap buf_vol_name jobs m
    → (pvc : PersistentVolumeClaim) (job : Job)
    → Has (λ (j : Job). Claims buf_vol_name pvc.name j.volumes × (j ≡ job)) jobs
    → lookup pvc.name m ≢ none
job_there buf_vol_name jobs m made pvc job has e =
    let (w, at, q) =
      add_claims_there (λ (j : Job). j.volumes) (λ j. j) buf_vol_name (λ j. Unit {0}) jobs [] m
        pvc.name (λ j. tt) made
        (Has-first (λ (j : Job). Claims buf_vol_name pvc.name j.volumes) (λ j. j ≡ job) jobs has) in
    absurd (cc (at, e))

-- Where the drain is not disabled, all is listed, and the loop ran: a claim loses its label only if
-- it is marked and in use; it is marked only if a job of its own has completed; a job is deleted, and
-- the placeholder removed, only if the job of that claim has completed or the claim is in use; and a
-- placeholder and a job are asked for only for a claim that is not marked, not in use and has no
-- job. In use are the claims of the listed pods' buffer volumes and those of the ordinals below the
-- number of replicas; a job is of the claim that its buffer volume names.
pub reconcile_drain-Reason :
    {R : Type 0} (cluster : Cluster R) (pointer : Option ℤ → ℤ) (spec : DrainSpec)
    (pvcs : List PersistentVolumeClaim) (pods : List (List PodVolume)) (reply : StatefulSetReply)
    (jobs : List Job) (claim_name : Text) (replicas : Option ℤ) (run : Run R)
    → spec.claim_name ≡ some claim_name
    → get_replica_count reply ≡ inl replicas
    → reconcile_drain cluster pointer spec
        (record { claims = inl pvcs; pods = inl pods; stateful_set = reply; jobs = inl jobs })
      ≡ ran run
    → All
        (Reason (
          view_of
            (qualified_name spec.logging_name claim_name)
            (qualified_name spec.logging_name (codes "fluentd"))
            pods
            (count (pointer replicas))
            jobs))
        run.requests
unfolding reconcile_drain or_unread or_crashed
reconcile_drain-Reason cluster pointer spec pvcs pods reply jobs claim_name replicas run named read
      h =
    let buf_vol_name = qualified_name spec.logging_name claim_name in
    elim (Bool-cases (spec.disable_pvc || not spec.drain_enabled)) [
      | inl p ↦ absurd (let bad = rw p at h in cc (bad))
      | inr p ↦
          (let (used, h1, k1) = crashed_ran _ _ run (rw (p, named) at h) in
            let (job_of_pvc, h2, k2) = crashed_ran _ _ run (rw read at k1) in
            let v =
              view_of buf_vol_name (qualified_name spec.logging_name (codes "fluentd")) pods
                (count (pointer replicas)) jobs in
            subst (λ (r : Run _). All (Reason v) r.requests) (ran_injective k2)
              (Reasoned-drain_claims v cluster spec buf_vol_name _ job_of_pvc pvcs
                (λ pvc. in_use_iff buf_vol_name _ pods used (count (pointer replicas)) pvc.name h1)
                (job_found buf_vol_name jobs job_of_pvc h2)
                (job_there buf_vol_name jobs job_of_pvc h2)))
    ]

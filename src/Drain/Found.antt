-- ===== src/Drain/Found.antt =====
-- The job that is made for a claim is found again as the claim's job.
use logging_operator.Base.{
  Text, ◌==◌, eq_refl, ◌≡◌, refl, ap, Option, none, some, List, [], ◌∷◌, ◌++◌, append_assoc, ◌⊎◌,
  inl, inr, Bool-cases,
}
use logging_operator.Base.Lists.{Has, Has-of_eq}
use logging_operator.Base.Assoc.{Assoc, lookup}
use logging_operator.Drain.{
  PodVolume, PersistentVolumeClaim, Job, DrainSpec, find_volume_by_name, drainer_name,
}
use logging_operator.Drain.Claim.{Cluster, drainer_job_for}
use logging_operator.Drain.Reconcile.{add_claims}
use logging_operator.Drain.Uses.{Claims, add_claims_there}

find-append :
    (a : List PodVolume) (name : Text) (vol : PodVolume) (b : List PodVolume)
    → find_volume_by_name a name ≡ none
    → vol.name ≡ name
    → find_volume_by_name (a ++ vol ∷ b) name ≡ some vol
unfolding find_volume_by_name
find-append [] name vol b h e = rw (e, eq_refl) refl
find-append (v ∷ a) name vol b h e = elim (Bool-cases (v.name == name)) [
  | inl p ↦ absurd (let bad = rw p at h in cc (bad))
  | inr p ↦ rw p (find-append a name vol b (rw p at h) e)
]

inl_injective :
    {A B : Type 0} {a b : A} → Path (Option (A ⊎ B)) (some (inl a)) (some (inl b)) → a ≡ b
inl_injective e = cc

-- The volumes of the job are the generated ones, that of the claim, and the extra ones.
job_volumes :
    {R : Type 0} (cluster : Cluster R) (spec : DrainSpec) (buf_vol_name : Text)
    (pvc : PersistentVolumeClaim) (o : List PodVolume ⊎ Text) (n : Option Text) (job : Job)
    → cluster.extend
        (spec.generated_volumes ++ (record { name = buf_vol_name; claim = some pvc.name }) ∷ [])
      ≡ o
    → drainer_name spec pvc ≡ n
    → drainer_job_for cluster spec buf_vol_name pvc ≡ some (inl job)
    → o ≡ inl job.volumes
unfolding drainer_job_for
job_volumes cluster spec b pvc (inr e) n job he hn h =
    absurd (let bad = rw (drainer_job_for, he) at h in cc (bad))
job_volumes cluster spec b pvc (inl vols) none job he hn h =
    absurd (let bad = rw (drainer_job_for, he, hn) at h in cc (bad))
job_volumes cluster spec b pvc (inl vols) (some name) job he hn h =
    let made = rw (drainer_job_for, he, hn) at h in
    ap (λ (j : Job). inl j.volumes) (inl_injective made)

-- A job that `drainerJobFor` made for a claim has the claim as its buffer volume, and once it is among
-- the listed jobs, the map of the jobs has one for that claim. This is where no generated volume has
-- the buffer volume's name, and the extra volumes are added behind.
pub drainer_job_for-found :
    {R : Type 0} (cluster : Cluster R) (spec : DrainSpec) (buf_vol_name : Text)
    (pvc : PersistentVolumeClaim) (job : Job) (jobs : List Job) (m : Assoc Job)
    → find_volume_by_name spec.generated_volumes buf_vol_name ≡ none
    → ((a b : List PodVolume)
        → cluster.extend a ≡ inl b
        → (more : List PodVolume) × (b ≡ a ++ more))
    → drainer_job_for cluster spec buf_vol_name pvc ≡ some (inl job)
    → Has (λ j. j ≡ job) jobs
    → add_claims (λ (j : Job). j.volumes) (λ j. j) buf_vol_name jobs [] ≡ some m
    → (found : Job) × (lookup pvc.name m ≡ some found) × Claims buf_vol_name pvc.name job.volumes
drainer_job_for-found cluster spec b pvc job jobs m absent extends made listed read =
    let own : PodVolume = record { name = b; claim = some pvc.name } in
    let (more, e) =
      extends (spec.generated_volumes ++ own ∷ []) job.volumes
        (job_volumes cluster spec b pvc _ _ job refl refl made) in
    let claims : Claims b pvc.name job.volumes = (
      own,
      rw (e, append_assoc) (find-append spec.generated_volumes b own more absent refl),
      refl,
    ) in
    let (found, at, q) =
      add_claims_there (λ (j : Job). j.volumes) (λ j. j) b (λ j. Unit {0}) jobs [] m pvc.name
        (λ j. tt) read
        (Has-of_eq (λ (j : Job). Claims b pvc.name j.volumes) job jobs claims listed) in
    (found, at, claims)

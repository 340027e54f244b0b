-- ===== src/Drain/Server.antt =====
-- What a round of the drain does to one claim and its job, as the API server holds them.
use logging_operator.Base.{
  Text, ◌≡◌, refl, ap, ◌∙◌, Bool, true, false, Option, none, some, List, [], ◌∷◌, inl, inr,
  if◌then◌else◌, Bool-cases,
}
use logging_operator.Drain.{
  PersistentVolumeClaim, Job, DrainSpec, job_successfully_completed, marked_as_drained,
  placeholder_name, Request, unmark, mark, delete_job, remove_placeholder, ensure_placeholder,
  create_job, background,
}
use logging_operator.Drain.Claim.{Cluster, drain_claim, drainer_job_for}
use logging_operator.Drain.Plan.{plan}

-- A claim and its job, as the API server holds them; `perform` is what a request does. The laws are
-- those of a merge patch of a label, of a background deletion, which removes the job at once, and of
-- a creation. Of a foreground deletion nothing is assumed here: the job stays until its pods are gone.
pub record Server : Type 1 where
  pub State : Type 0
  pub pvc : State → PersistentVolumeClaim
  pub job : State → Option Job
  pub perform : Request → State → State
  pub unmarked :
      (p : PersistentVolumeClaim) (w : State)
      → (marked_as_drained (pvc (perform (unmark p) w)) ≡ false)
        × (job (perform (unmark p) w) ≡ job w)
  pub marked :
      (p : PersistentVolumeClaim) (w : State)
      → (marked_as_drained (pvc (perform (mark p) w)) ≡ true) × (job (perform (mark p) w) ≡ job w)
  pub deleted :
      (j : Job) (p : PersistentVolumeClaim) (w : State)
      → (pvc (perform (delete_job background j p) w) ≡ pvc w)
        × (job (perform (delete_job background j p) w) ≡ none)
  pub placeholder_gone :
      (name : Text) (p : PersistentVolumeClaim) (w : State)
      → (pvc (perform (remove_placeholder name p) w) ≡ pvc w)
        × (job (perform (remove_placeholder name p) w) ≡ job w)
  pub placeholder_there :
      (name : Text) (p : PersistentVolumeClaim) (w : State)
      → (pvc (perform (ensure_placeholder name p) w) ≡ pvc w)
        × (job (perform (ensure_placeholder name p) w) ≡ job w)
  pub created :
      (j : Job) (p : PersistentVolumeClaim) (w : State)
      → (pvc (perform (create_job j p) w) ≡ pvc w) × (job (perform (create_job j p) w) ≡ some j)

module _ (srv : Server) where
  -- The requests, in their order
  unfoldable pub answer : List Request → srv.State → srv.State
  answer [] w = w
  answer (r ∷ rs) w = answer rs (srv.perform r w)

  module _ {R : Type 0} (cluster : Cluster R) (spec : DrainSpec) (buf_vol_name : Text) where
    -- What a round asks for
    unfoldable pub asked : Bool → srv.State → List Request
    unfolding drain_claim
    asked used w = (drain_claim cluster spec buf_vol_name (srv.pvc w) used (srv.job w)).requests

    unfoldable pub round : Bool → srv.State → srv.State
    unfolding answer asked
    round used w = answer (asked used w) w

-- The claim's name has a dash, and its job can be made.
abbrev pub Named : Server → {R : Type 0} → Cluster R → DrainSpec → Text → Type 0
Named srv cluster spec buf_vol_name =
    (w : srv.State)
    → ((name : Text) × (placeholder_name spec (srv.pvc w) ≡ some name))
      × ((new : Job) × (drainer_job_for cluster spec buf_vol_name (srv.pvc w) ≡ some (inl new)))

-- The mark and the job after a round for a claim that is not in use
unfoldable pub after_round : Job → Bool → Option Job → Bool × Option Job
unfolding job_successfully_completed
after_round new false none = (false, some new)
after_round new true none = (true, none)
after_round new m (some job) =
    if job_successfully_completed job then (true, none) else (m, some job)

pub next_done :
    (new : Job) (m : Bool) (job : Job)
    → job_successfully_completed job ≡ true
    → after_round new m (some job) ≡ (true, none)
unfolding after_round
next_done new m job p = rw p refl

pub plan_waits :
    (pvc : PersistentVolumeClaim) (name : Text) (new : Job) (m : Bool) (job : Job)
    → job_successfully_completed job ≡ false
    → plan pvc name new m false (some job) ≡ []
unfolding plan
plan_waits pvc name new true job p = rw p refl
plan_waits pvc name new false job p = rw p refl

-- The claim has the mark and the job.
abbrev pub Seen : (srv : Server) → srv.State → Bool × Option Job → Type 0
Seen srv w s = (marked_as_drained (srv.pvc w) ≡ s.0) × (srv.job w ≡ s.1)

module _ (srv : Server) where
  Seen-done :
      (w : srv.State) (job : Job) (name : Text) (p : PersistentVolumeClaim)
      → Seen srv
          (answer srv (mark p ∷ delete_job background job p ∷ remove_placeholder name p ∷ []) w)
          (true, none)
  unfolding answer
  Seen-done w job name p =
      let gone = srv.placeholder_gone name p _ in
      let deleted = srv.deleted job p _ in
      (ap marked_as_drained (gone.0 ∙ deleted.0) ∙ (srv.marked p w).0, gone.1 ∙ deleted.1)

  -- The plan for a claim that is not in use leads to the next mark and job.
  pub Seen-plan :
      (w : srv.State) (name : Text) (new : Job) (m : Bool) (o : Option Job)
      → Seen srv w (m, o)
      → Seen srv (answer srv (plan (srv.pvc w) name new m false o) w) (after_round new m o)
  unfolding answer plan after_round
  Seen-plan w name new false none (e, j) =
      let there = srv.placeholder_there name (srv.pvc w) w in
      let made = srv.created new (srv.pvc w) _ in
      (ap marked_as_drained (made.0 ∙ there.0) ∙ e, made.1)
  Seen-plan w name new true none s = s
  Seen-plan w name new true (some job) s = elim (Bool-cases (job_successfully_completed job)) [
    | inl p ↦ rw p (Seen-done w job name (srv.pvc w))
    | inr p ↦ rw p s
  ]
  Seen-plan w name new false (some job) s = elim (Bool-cases (job_successfully_completed job)) [
    | inl p ↦ rw p (Seen-done w job name (srv.pvc w))
    | inr p ↦ rw p s
  ]

  -- An unmarked claim in use without a job, and the marked one, after a round
  pub Seen-unmarked :
      (w : srv.State) (name : Text) (new : Job) (o : Option Job)
      → srv.job w ≡ o
      → Seen srv (answer srv (plan (srv.pvc w) name new true true o) w) (false, o)
  unfolding answer plan
  Seen-unmarked w name new o j = let h = srv.unmarked (srv.pvc w) w in (h.0, h.1 ∙ j)

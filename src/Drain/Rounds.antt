-- ===== src/Drain/Rounds.antt =====
-- Rounds of the drain for one claim that is not in use, while all requests succeed.
use logging_operator.Base.{
  Text, ◌≡◌, refl, subst, Bool, true, false, Option, none, some, [], ◌⊎◌, inl, inr, Bool-cases,
}
use logging_operator.Drain.{Job, DrainSpec, job_successfully_completed, marked_as_drained}
use logging_operator.Drain.Claim.{Cluster}
use logging_operator.Drain.Plan.{Succeeds, plan, drain_claim-plan}
use logging_operator.Drain.Server.{
  Server, answer, asked, round, Named, after_round, next_done, plan_waits, Seen, Seen-plan,
}

module _ (srv : Server) where
  module _ {R : Type 0} (cluster : Cluster R) (success : Succeeds cluster) (spec : DrainSpec)
      (buf_vol_name : Text) (named : Named srv cluster spec buf_vol_name) where
    pub new_job : srv.State → Job
    new_job w = (named w).1.0

    pub asked-plan :
        (used m : Bool) (w : srv.State)
        → marked_as_drained (srv.pvc w) ≡ m
        → (name : Text) × (asked srv cluster spec buf_vol_name used w
            ≡ plan (srv.pvc w) name (new_job w) m used (srv.job w))
    unfolding asked new_job
    asked-plan used m w e =
        let ((name, is_named), (new, made)) = named w in
        (
          name,
          drain_claim-plan cluster success spec buf_vol_name (srv.pvc w) name new is_named made m
              used (srv.job w) e,
        )

    Seen-round :
        (m : Bool) (o : Option Job) (w : srv.State)
        → Seen srv w (m, o)
        → Seen srv (round srv cluster spec buf_vol_name false w) (after_round (new_job w) m o)
    unfolding round
    Seen-round m o w (e, j) =
        let (name, same) = asked-plan false m w e in
        rw (same, j) (Seen-plan srv w name (new_job w) m o (e, j))

    -- Where the plan is empty, a round changes nothing.
    rests :
        (used m : Bool) (o : Option Job) (w : srv.State)
        → Seen srv w (m, o)
        → ((name : Text) → plan (srv.pvc w) name (new_job w) m used o ≡ [])
        → round srv cluster spec buf_vol_name used w ≡ w
    unfolding answer round
    rests used m o w (e, j) empty =
        let (name, same) = asked-plan used m w e in rw (same, j, empty name) refl

    -- What a round does to a claim that is not in use.
    abbrev pub Unused : srv.State → Type 0
    Unused w =
        let once = round srv cluster spec buf_vol_name false in
        (Seen srv w (false, none) × Seen srv (once w) (false, some (named w).1.0))
        ⊎ ((Seen srv w (true, none) × (once w ≡ w))
            ⊎ ((job : Job) × (srv.job w ≡ some job)
                × (((job_successfully_completed job ≡ true)
                      × Seen srv (once w) (true, none)
                      × (once (once w) ≡ once w))
                    ⊎ ((job_successfully_completed job ≡ false) × (once w ≡ w)))))

    Unused-by : (w : srv.State) (m : Bool) (o : Option Job) → Seen srv w (m, o) → Unused w
    unfolding plan after_round new_job
    Unused-by w false none s = inl (s, Seen-round false none w s)
    Unused-by w true none s = inr (inl (s, rests false true none w s (λ name. refl)))
    Unused-by w m (some job) (e, j) =
        let once = round srv cluster spec buf_vol_name false in
        inr (
          inr (
            job,
            j,
            elim (Bool-cases (job_successfully_completed job)) [
              | inl p ↦
                  (let done : Seen srv (once w) (true, none) =
                      subst (Seen srv (once w)) (next_done (new_job w) m job p)
                        (Seen-round m (some job) w (e, j)) in
                    inl (p, done, rests false true none (once w) done (λ name. refl)))
              | inr p ↦ inr (
                p,
                rests false m (some job) w (e, j)
                    (λ name. plan_waits (srv.pvc w) name (new_job w) m job p),
              )
            ],
          ))

    -- A claim that is not in use, where no request fails. Without mark and job, a round gives it the
    -- job that was made for it, and no mark. With a mark and no job, a round changes nothing. With a
    -- completed job, a round gives it the mark and takes the job away, and a further round changes
    -- nothing. With a job that has not completed, a round changes nothing.
    pub rounds-Unused : (w : srv.State) → Unused w
    rounds-Unused w = Unused-by w (marked_as_drained (srv.pvc w)) (srv.job w) (refl, refl)

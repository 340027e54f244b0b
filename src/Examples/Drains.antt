-- ===== src/Examples/Drains.antt =====
-- The theorems on the drain, at concrete claims, pods and jobs.
use logging_operator.Base.{
  Text, codes, ◌==◌, ◌≡◌, refl, sym, ◌∙◌, append-nil, Bool, true, false, Option, none, some, List,
  [], ◌∷◌, ◌⊎◌, inl, ℕ, zero, suc, ◌≤◌, arith,
}
use logging_operator.Base.Int.{ℤ}
use logging_operator.Base.Lists.{All, Has}
use logging_operator.Base.Assoc.{lookup}
use logging_operator.Drain.{
  PodVolume, PersistentVolumeClaim, Job, DrainSpec, Request, unmark, mark, delete_job,
  remove_placeholder, ensure_placeholder, create_job, qualified_name, marked_as_drained,
  find_volume_by_name, placeholder_name, Propagation, background, foreground,
}
use logging_operator.Drain.Claim.{Cluster, Run, drainer_job_for}
use logging_operator.Drain.Reconcile.{
  add_claims, Listed, Drain, ran, crashed, found, reconcile_drain, count, get_replica_count,
}
use logging_operator.Drain.Uses.{Claims}
use logging_operator.Drain.Reasons.{Reason}
use logging_operator.Drain.Round.{view_of, reconcile_drain-Reason}
use logging_operator.Drain.Found.{drainer_job_for-found}
use logging_operator.Drain.Plan.{Succeeds}
use logging_operator.Drain.Server.{Server, Seen, asked, round}
use logging_operator.Drain.Rounds.{Unused, rounds-Unused}
use logging_operator.Drain.InUse.{Course, rounds-in_use}
use logging_operator.Drain.Panics.{reconcile_drain-crashed}

abbrev cluster : Cluster ℕ
cluster = record {
  send = λ request. none;
  reconcile_resource = λ request. (none, none);
  extend = λ volumes. inl volumes;
}

abbrev spec : DrainSpec
spec = record {
  logging_name = codes "l";
  disable_pvc = false;
  drain_enabled = true;
  claim_name = some (codes "buf");
  generated_volumes = (record { name = codes "config"; claim = none }) ∷ [];
}

abbrev pointer : Option ℤ → ℤ
pointer none = ℤ.pos 0
pointer (some n) = n

abbrev claim : PersistentVolumeClaim
claim = record { name = codes "l-buf-l-fluentd-1"; labels = [] }

abbrev marked_claim : PersistentVolumeClaim
marked_claim = record {
  name = codes "l-buf-l-fluentd-0";
  labels = (codes "logging.banzaicloud.io/drain-status", codes "drained") ∷ [];
}

abbrev pods : List (List PodVolume)
pods = ((record { name = codes "l-buf"; claim = some (codes "l-buf-l-fluentd-0") }) ∷ []) ∷ []

abbrev run_of : Drain ℕ → Run ℕ
run_of (ran run) = run
run_of _ = record { requests = []; combined = []; panicked = true }

abbrev listed : Listed
listed = record {
  claims = inl (marked_claim ∷ claim ∷ []);
  pods = inl pods;
  stateful_set = found (some (ℤ.pos 1));
  jobs = inl [];
}

reconcile_drain-Reason_example :
    All
      (Reason (
        view_of
          (qualified_name (codes "l") (codes "buf"))
          (qualified_name (codes "l") (codes "fluentd"))
          pods
          1
          []))
      (run_of (reconcile_drain cluster pointer spec listed)).requests
unfolding codes ◌==◌ reconcile_drain get_replica_count count
reconcile_drain-Reason_example =
    reconcile_drain-Reason cluster pointer spec (marked_claim ∷ claim ∷ []) pods
      (found (some (ℤ.pos 1))) [] (codes "buf") (some (ℤ.pos 1))
      (run_of (reconcile_drain cluster pointer spec listed)) refl refl refl

abbrev old_pods : List (List PodVolume)
old_pods = ((record { name = codes "l-buf"; claim = none }) ∷ []) ∷ []

reconcile_drain-crashed_example :
    reconcile_drain cluster pointer spec
      (record { claims = inl []; pods = inl old_pods; stateful_set = found none; jobs = inl [] })
    ≡ crashed
unfolding codes ◌==◌ find_volume_by_name qualified_name
reconcile_drain-crashed_example =
    reconcile_drain-crashed cluster pointer spec _ [] old_pods (codes "buf") refl refl refl refl
      refl (inl (record { name = codes "l-buf"; claim = none }, refl, refl))

abbrev new_job : Job
new_job = record {
  name = codes "l-fluentd-1-drainer";
  volumes =
      (record { name = codes "config"; claim = none })
      ∷ (record { name = codes "l-buf"; claim = some (codes "l-buf-l-fluentd-1") })
      ∷ [];
  has_completion_time = false;
  succeeded = ℤ.pos 0;
  failed = ℤ.pos 0;
}

inl_injective : {A B : Type 0} {a b : A} → Path (A ⊎ B) (inl a) (inl b) → a ≡ b
inl_injective e = cc

drainer_job_for-found_example :
    (job : Job) × (lookup (codes "l-buf-l-fluentd-1") ((codes "l-buf-l-fluentd-1", new_job) ∷ [])
      ≡ some job)
    × Claims (codes "l-buf") (codes "l-buf-l-fluentd-1") new_job.volumes
unfolding codes ◌==◌ find_volume_by_name add_claims drainer_job_for
drainer_job_for-found_example =
    drainer_job_for-found cluster spec (codes "l-buf") claim new_job (new_job ∷ [])
      ((codes "l-buf-l-fluentd-1", new_job) ∷ []) refl
      (λ a b e. ([], sym (inl_injective e) ∙ sym (append-nil a))) refl (inl refl) refl

-- A server for one claim: its mark and its job
abbrev claim_with : Bool → PersistentVolumeClaim
claim_with true = record claim {
  labels = (codes "logging.banzaicloud.io/drain-status", codes "drained") ∷ [];
}
claim_with false = claim

abbrev applied : Request → Bool × Option Job → Bool × Option Job
applied (unmark p) (m, o) = (false, o)
applied (mark p) (m, o) = (true, o)
applied (delete_job background j p) (m, o) = (m, none)
applied (delete_job foreground j p) (m, o) = (m, o)
applied (remove_placeholder name p) (m, o) = (m, o)
applied (ensure_placeholder name p) (m, o) = (m, o)
applied (create_job j p) (m, o) = (m, some j)

is_marked : (m : Bool) → marked_as_drained (claim_with m) ≡ m
unfolding codes ◌==◌ marked_as_drained
is_marked true = refl
is_marked false = refl

abbrev server : Server
server = record {
  State = Bool × Option Job;
  pvc = λ w. claim_with w.0;
  job = λ w. w.1;
  perform = applied;
  unmarked = λ p w. (is_marked false, refl);
  marked = λ p w. (is_marked true, refl);
  deleted = λ j p w. (refl, refl);
  placeholder_gone = λ name p w. (refl, refl);
  placeholder_there = λ name p w. (refl, refl);
  created = λ j p w. (refl, refl);
}

success : Succeeds cluster
success = record { sends = λ request. refl; reconciles = λ request. refl }

named :
    (w : Bool × Option Job)
    → ((name : Text) × (placeholder_name spec (claim_with w.0) ≡ some name))
      × ((new : Job) × (drainer_job_for cluster spec (codes "l-buf") (claim_with w.0)
            ≡ some (inl new)))
unfolding codes ◌==◌ placeholder_name drainer_job_for
named (true, o) = ((codes "l-fluentd-1", refl), (new_job, refl))
named (false, o) = ((codes "l-fluentd-1", refl), (new_job, refl))

abbrev done_job : Job
done_job = record new_job { has_completion_time = true; succeeded = ℤ.pos 1 }

-- A marked claim is used again while its job runs: it is unmarked, the job is deleted in the foreground,
-- and is still there for a round.
abbrev held : ℕ → Bool × Option Job
held zero = (true, some new_job)
held (suc zero) = (false, some new_job)
held (suc (suc zero)) = (false, some new_job)
held (suc (suc (suc n))) = (false, none)

course_mark :
    (n : ℕ)
    → marked_as_drained (claim_with (held (suc n)).0)
      ≡ marked_as_drained (claim_with (round server cluster spec (codes "l-buf") true (held n)).0)
unfolding codes ◌==◌ marked_as_drained round
course_mark zero = refl
course_mark (suc zero) = refl
course_mark (suc (suc zero)) = refl
course_mark (suc (suc (suc n))) = refl

course_job :
    (n : ℕ)
    → (round server cluster spec (codes "l-buf") true (held n)).1 ≡ none
    → (held (suc n)).1 ≡ none
unfolding codes ◌==◌ marked_as_drained round
course_job zero h = absurd (cc)
course_job (suc zero) h = absurd (cc)
course_job (suc (suc n)) h = refl

course_deleted :
    (n : ℕ) (how : Propagation) (j : Job) (p : PersistentVolumeClaim)
    → Has (λ r. r ≡ delete_job how j p) (asked server cluster spec (codes "l-buf") true (held n))
    → (k : ℕ) × (n ≤ k) × ((held k).1 ≡ none)
unfolding codes ◌==◌ marked_as_drained asked
course_deleted zero how j p has = (3, omega arith, refl)
course_deleted (suc zero) how j p has = (3, omega arith, refl)
course_deleted (suc (suc zero)) how j p has = (3, omega arith, refl)
course_deleted (suc (suc (suc n))) how j p has = absurd has

course : Course server cluster spec (codes "l-buf") held
course = record {
  mark_kept = course_mark;
  no_new_job = course_job;
  deleted_at_last = course_deleted;
}

rounds-in_use_example :
    (from : ℕ) × ((n : ℕ)
      → from ≤ n
      → Seen server (held n) (false, none)
        × (asked server cluster spec (codes "l-buf") true (held n) ≡ []))
rounds-in_use_example = rounds-in_use server cluster success spec (codes "l-buf") named held course

rounds-Unused_example :
    Unused server cluster success spec (codes "l-buf") named (true, some done_job)
rounds-Unused_example =
    rounds-Unused server cluster success spec (codes "l-buf") named (true, some done_job)

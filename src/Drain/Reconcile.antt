-- ===== src/Drain/Reconcile.antt =====
-- `reconcileDrain`: the claims in use, the jobs of claims, and the loop over the claims.
use mathlib.Core.Option
use logging_operator.Base.{
  ℕ, zero, suc, ◌+◌, Text, codes, decimal, Bool, true, false, not, ◌||◌, Option, none, some, List,
  [], ◌∷◌, ◌++◌, ◌⊎◌, inl, inr, if◌then◌else◌,
}
use logging_operator.Base.Int.{ℤ}
use logging_operator.Base.Assoc.{Assoc, lookup, insert}
use logging_operator.Drain.{
  PodVolume, PersistentVolumeClaim, Job, DrainSpec, find_volume_by_name, qualified_name,
}
use logging_operator.Drain.Claim.{Cluster, Run, stop, drain_claim}

-- `m[bufVol.PersistentVolumeClaim.ClaimName] = value` for the volume of a pod, if it has one; it
-- panics where the volume has no claim.
unfoldable pub add_claim : {V : Type 0} → V → Option PodVolume → Assoc V → Option (Assoc V)
unfolding insert
add_claim value none m = some m
add_claim value (some vol) m = Option.map (λ claim. insert claim value m) vol.claim

unfoldable pub add_claims :
    {X V : Type 0} → (X → List PodVolume) → (X → V) → Text → List X → Assoc V → Option (Assoc V)
unfolding add_claim find_volume_by_name Option.bind
add_claims volumes value name [] m = some m
add_claims volumes value name (x ∷ xs) m =
    Option.bind (add_claim (value x) (find_volume_by_name (volumes x) name) m)
      (add_claims volumes value name xs)

-- A claim of the stateful set's pod `i`
unfoldable pub claim_of_ordinal : Text → Text → ℕ → Text
unfolding decimal
claim_of_ordinal buf_vol_name sts i =
    buf_vol_name ++ (codes "-" ++ (sts ++ (codes "-" ++ decimal i)))

-- The claims of the ordinals from `i` on are in use.
unfoldable pub mark_ordinals : Text → Text → ℕ → ℕ → Assoc Bool → Assoc Bool
unfolding insert claim_of_ordinal
mark_ordinals buf_vol_name sts i zero m = m
mark_ordinals buf_vol_name sts i (suc n) m =
    mark_ordinals buf_vol_name sts (i + 1) n (insert (claim_of_ordinal buf_vol_name sts i) true m)

-- The rounds of the loop `for i := 0; i < n; i++`
unfoldable pub count : ℤ → ℕ
count (ℤ.pos n) = n
count (ℤ.negsuc n) = 0

-- The answer to the stateful set's `Get`: its replicas, if they are set
pub data StatefulSetReply : Type 0 where
  found : Option ℤ → StatefulSetReply
  not_found : StatefulSetReply
  get_failed : Text → StatefulSetReply

-- What the API server answers to the lists, with the selectors of the code; a pod is its volumes.
pub record Listed : Type 0 where
  pub claims : List PersistentVolumeClaim ⊎ Text
  pub pods : List (List PodVolume) ⊎ Text
  pub stateful_set : StatefulSetReply
  pub jobs : List Job ⊎ Text

-- `GetReplicaCount`: a stateful set that is missing is no error.
unfoldable pub get_replica_count : StatefulSetReply → Option ℤ ⊎ Text
get_replica_count (found replicas) = inl replicas
get_replica_count not_found = inl none
get_replica_count (get_failed e) = inr e

unfoldable pub in_use : Text → Assoc Bool → Bool
unfolding lookup
in_use name m = elim (lookup name m) [ some b ↦ b | none ↦ false ]

-- How the round ends: it is disabled, a list or the stateful set cannot be read, the code panics
-- before the loop, or the loop ran.
pub data Drain (R : Type 0) : Type 0 where
  disabled : Drain R
  unread : Text → Drain R
  crashed : Drain R
  ran : Run R → Drain R

module _ {R : Type 0} where
  unfoldable pub append_run : Run R → Run R → Run R
  append_run a b = if a.panicked then a else record {
    requests = a.requests ++ b.requests;
    combined = a.combined ++ b.combined;
    panicked = b.panicked;
  }

  unfoldable pub drain_claims :
      Cluster R → DrainSpec → Text → Assoc Bool → Assoc Job → List PersistentVolumeClaim → Run R
  unfolding append_run drain_claim in_use lookup
  drain_claims cluster spec buf_vol_name used jobs [] = stop
  drain_claims cluster spec buf_vol_name used jobs (pvc ∷ pvcs) =
      append_run
        (drain_claim cluster spec buf_vol_name pvc (in_use pvc.name used) (lookup pvc.name jobs))
        (drain_claims cluster spec buf_vol_name used jobs pvcs)

  unfoldable pub or_unread : {A : Type 0} → A ⊎ Text → (A → Drain R) → Drain R
  or_unread (inl a) next = next a
  or_unread (inr e) next = unread e

  unfoldable pub or_crashed : {A : Type 0} → Option A → (A → Drain R) → Drain R
  or_crashed (some a) next = next a
  or_crashed none next = crashed

  -- `pointer` is `utils.PointerToInt32`.
  unfoldable pub reconcile_drain : Cluster R → (Option ℤ → ℤ) → DrainSpec → Listed → Drain R
  unfolding or_unread or_crashed qualified_name add_claims mark_ordinals count get_replica_count
      drain_claims
  reconcile_drain cluster pointer spec listed =
      if spec.disable_pvc || not spec.drain_enabled
      then disabled
      else or_unread listed.claims (λ pvcs. or_unread listed.pods (λ pods.
        or_crashed spec.claim_name (λ claim_name.
          let buf_vol_name = qualified_name spec.logging_name claim_name in
          or_crashed (add_claims (λ pod. pod) (λ pod. true) buf_vol_name pods []) (λ used.
            or_unread (get_replica_count listed.stateful_set) (λ replicas.
              let all_used =
                mark_ordinals buf_vol_name (qualified_name spec.logging_name (codes "fluentd")) 0
                  (count (pointer replicas)) used in
              or_unread listed.jobs (λ jobs.
                or_crashed
                  (add_claims (λ (job : Job). job.volumes) (λ job. job) buf_vol_name jobs [])
                  (λ job_of_pvc.
                    ran (drain_claims cluster spec buf_vol_name all_used job_of_pvc pvcs))))))))

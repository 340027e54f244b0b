-- ===== src/Drain/Panics.antt =====
-- Where `reconcileDrain` panics before its loop.
use mathlib.Core.Option
use logging_operator.Base.{
  Text, ◌≡◌, refl, true, false, Option, none, some, List, [], ◌∷◌, inl, inr,
}
use logging_operator.Base.Int.{ℤ}
use logging_operator.Base.Lists.{Has}
use logging_operator.Base.Assoc.{Assoc}
use logging_operator.Drain.{PodVolume, DrainSpec, qualified_name, find_volume_by_name}
use logging_operator.Drain.Claim.{Cluster}
use logging_operator.Drain.Reconcile.{
  add_claim, add_claims, Listed, crashed, reconcile_drain, or_unread, or_crashed,
}

-- The first volume of the name is not of a claim.
abbrev pub Unclaimed : Text → List PodVolume → Type 0
Unclaimed name volumes =
    (vol : PodVolume) × (find_volume_by_name volumes name ≡ some vol) × (vol.claim ≡ none)

bind_none :
    {A B : Type 0} (o : Option A) (f : A → Option B)
    → ((a : A) → f a ≡ none)
    → Option.bind o f ≡ none
unfolding Option.bind
bind_none none f h = refl
bind_none (some a) f h = h a

add_claims-none :
    {X V : Type 0} (volumes : X → List PodVolume) (value : X → V) (name : Text) (xs : List X)
    (m : Assoc V)
    → Has (λ x. Unclaimed name (volumes x)) xs
    → add_claims volumes value name xs m ≡ none
unfolding add_claims add_claim Option.bind
add_claims-none volumes value name [] m h = absurd h
add_claims-none volumes value name (x ∷ xs) m (inl (vol, found, claim)) = rw (found, claim) refl
add_claims-none volumes value name (x ∷ xs) m (inr h) =
    bind_none (add_claim (value x) (find_volume_by_name (volumes x) name) m) _
      (λ l. add_claims-none volumes value name xs l h)

-- Where the drain is not disabled and a listed pod of the stateful set has a buffer volume that is not
-- of a claim, as one has that was made while `disablePvc` was set, the round panics.
pub reconcile_drain-crashed :
    {R : Type 0} (cluster : Cluster R) (pointer : Option ℤ → ℤ) (spec : DrainSpec) (listed : Listed)
    (pvcs : List _) (pods : List (List PodVolume)) (claim_name : Text)
    → spec.disable_pvc ≡ false
    → spec.drain_enabled ≡ true
    → spec.claim_name ≡ some claim_name
    → listed.claims ≡ inl pvcs
    → listed.pods ≡ inl pods
    → Has (Unclaimed (qualified_name spec.logging_name claim_name)) pods
    → reconcile_drain cluster pointer spec listed ≡ crashed
unfolding reconcile_drain or_unread or_crashed
reconcile_drain-crashed cluster pointer spec listed pvcs pods claim_name with_pvc enabled named c p
      has =
    rw (with_pvc, enabled, named, c, p)
      (rw
        (add_claims-none (λ pod. pod) (λ pod. true) (qualified_name spec.logging_name claim_name)
          pods [] has)
        refl)

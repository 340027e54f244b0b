-- ===== src/Drain/Uses.antt =====
-- The maps of `reconcileDrain`: which claims are in use, and which have a job.
use mathlib.Core.Option
use logging_operator.Base.{
  ℕ, zero, suc, ◌+◌, ◌≤◌, ◌<◌, Text, ◌==◌, eq_iff, eq_refl, ◌≡◌, refl, sym, ap, ◌∙◌, leb, Bool,
  true, false, Option, none, some, List, [], ◌∷◌, ◌⊎◌, inl, inr, arith, Bool-cases, ◌↔◌,
}
use logging_operator.Base.Lists.{Has, Has-first}
use logging_operator.Base.Assoc.{Assoc, lookup, insert, lookup-insert}
use logging_operator.Drain.{PodVolume, find_volume_by_name}
use logging_operator.Drain.Reconcile.{
  add_claim, add_claims, claim_of_ordinal, mark_ordinals, in_use,
}

-- The first volume of the name is of the claim.
abbrev pub Claims : Text → Text → List PodVolume → Type 0
Claims name claim volumes =
    (vol : PodVolume) × (find_volume_by_name volumes name ≡ some vol) × (vol.claim ≡ some claim)

some_injective : {A : Type 0} {a b : A} → some a ≡ some b → a ≡ b
some_injective e = cc

bind_some :
    {A B : Type 0} (o : Option A) (f : A → Option B) (b : B)
    → Option.bind o f ≡ some b
    → (a : A) × (o ≡ some a) × (f a ≡ some b)
unfolding Option.bind
bind_some none f b h = absurd (cc)
bind_some (some a) f b h = (a, refl, h)

pub lookup-empty : {V : Type 0} (key : Text) (w : V) → lookup key [] ≡ some w → ⊥
unfolding lookup
lookup-empty key w h = absurd (cc)

module _ {V : Type 0} where
  inserted :
      (value : V) (claim : Option Text) (m n : Assoc V)
      → Option.map (λ c. insert c value m) claim ≡ some n
      → (c : Text) × (claim ≡ some c) × (n ≡ insert c value m)
  inserted value none m n h = absurd (cc)
  inserted value (some c) m n h = (c, refl, cc)

  -- An entry of the map is the new one, or the one that was there.
  add_claim-lookup :
      (value : V) (o : Option PodVolume) (m n : Assoc V) (key : Text)
      → add_claim value o m ≡ some n
      → ((vol : PodVolume) × (o ≡ some vol) × (vol.claim ≡ some key) × (lookup key n ≡ some value))
        ⊎ ((lookup key n ≡ lookup key m)
            × ((vol : PodVolume) → o ≡ some vol → vol.claim ≡ some key → ⊥))
  unfolding add_claim
  add_claim-lookup value none m n key h = inr (rw (some_injective h) refl, λ vol e. absurd (cc))
  add_claim-lookup value (some vol) m n key h =
      let (c, claim, same) = inserted value vol.claim m n h in
      elim (Bool-cases (c == key)) [
        | inl p ↦
            inl (vol, refl, claim ∙ ap some ((eq_iff c key).0 p), rw (same, lookup-insert, p) refl)
        | inr p ↦ inr (
          rw (same, lookup-insert, p) refl,
          λ other e k.
              let twice : c ≡ key =
                some_injective
                  (sym claim ∙ (ap (λ (v : PodVolume). v.claim) (some_injective e) ∙ k)) in
              ground (arith, eq_iff c key),
        )
      ]

  module _ {X : Type 0} (volumes : X → List PodVolume) (value : X → V) (name : Text) where
    -- An entry of the map was there, or is of a member of the list that has the claim.
    pub add_claims_found :
        (xs : List X) (m n : Assoc V) (key : Text) (w : V)
        → add_claims volumes value name xs m ≡ some n
        → lookup key n ≡ some w
        → Has (λ x. Claims name key (volumes x) × (value x ≡ w)) xs ⊎ (lookup key m ≡ some w)
    unfolding add_claims
    add_claims_found [] m n key w h e = inr (rw (some_injective h) e)
    add_claims_found (x ∷ xs) m n key w h e =
        let (l, h1, h2) = bind_some _ (add_claims volumes value name xs) n h in
        elim (add_claims_found xs l n key w h2 e) [
          | inl later ↦ inl (inr later)
          | inr at ↦ elim (add_claim-lookup (value x) _ m l key h1) [
            | inl (vol, found, claim, new) ↦
                inl (inl ((vol, found, claim), some_injective (sym new ∙ at)))
            | inr (same, _) ↦ inr (sym same ∙ at)
          ]
        ]

    -- An entry with a property stays one, where all new ones have it.
    pub add_claims_kept :
        (Q : V → Type 0) (xs : List X) (m n : Assoc V) (key : Text)
        → ((x : X) → Q (value x))
        → add_claims volumes value name xs m ≡ some n
        → (w : V) × (lookup key m ≡ some w) × Q w
        → (w : V) × (lookup key n ≡ some w) × Q w
    unfolding add_claims
    add_claims_kept Q [] m n key all h (w, e, q) = (w, rw (← some_injective h) e, q)
    add_claims_kept Q (x ∷ xs) m n key all h (w, e, q) =
        let (l, h1, h2) = bind_some _ (add_claims volumes value name xs) n h in
        elim (add_claim-lookup (value x) _ m l key h1) [
          | inl (vol, found, claim, new) ↦ add_claims_kept Q xs l n key all h2 (value x, new, all x)
          | inr (same, _) ↦ add_claims_kept Q xs l n key all h2 (w, same ∙ e, q)
        ]

    -- A member of the list that has the claim gives it an entry.
    pub add_claims_there :
        (Q : V → Type 0) (xs : List X) (m n : Assoc V) (key : Text)
        → ((x : X) → Q (value x))
        → add_claims volumes value name xs m ≡ some n
        → Has (λ x. Claims name key (volumes x)) xs
        → (w : V) × (lookup key n ≡ some w) × Q w
    unfolding add_claims
    add_claims_there Q [] m n key all h has = absurd has
    add_claims_there Q (x ∷ xs) m n key all h (inl (vol, found, claim)) =
        let (l, h1, h2) = bind_some _ (add_claims volumes value name xs) n h in
        elim (add_claim-lookup (value x) _ m l key h1) [
          | inl (v, f, c, new) ↦ add_claims_kept Q xs l n key all h2 (value x, new, all x)
          | inr (_, none_of) ↦ absurd (none_of vol found claim)
        ]
    add_claims_there Q (x ∷ xs) m n key all h (inr later) =
        let (l, h1, h2) = bind_some _ (add_claims volumes value name xs) n h in
        add_claims_there Q xs l n key all h2 later

in_use_of : (o : Option Bool) → (elim o [ some b ↦ b | none ↦ false ] ≡ true) ↔ (o ≡ some true)
in_use_of none = (λ h. cc, λ h. cc)
in_use_of (some b) = (λ h. ap some h, λ h. some_injective h)

is_in_use : (name : Text) (m : Assoc Bool) → (in_use name m ≡ true) ↔ (lookup name m ≡ some true)
unfolding in_use
is_in_use name m = in_use_of (lookup name m)

-- The ordinals from `i` on, `n` of them
module _ (buf_vol_name sts : Text) where
  mark_ordinals_kept :
      (i n : ℕ) (m : Assoc Bool) (key : Text)
      → lookup key m ≡ some true
      → lookup key (mark_ordinals buf_vol_name sts i n m) ≡ some true
  unfolding mark_ordinals
  mark_ordinals_kept i zero m key h = h
  mark_ordinals_kept i (suc n) m key h = mark_ordinals_kept (i + 1) n _ key (
      rw lookup-insert (elim (Bool-cases (claim_of_ordinal buf_vol_name sts i == key)) [
        | inl p ↦ rw p refl
        | inr p ↦ rw p h
      ]))

  mark_ordinals_there :
      (i n : ℕ) (m : Assoc Bool) (j : ℕ)
      → i ≤ j
      → j < i + n
      → lookup (claim_of_ordinal buf_vol_name sts j) (mark_ordinals buf_vol_name sts i n m)
        ≡ some true
  unfolding mark_ordinals
  mark_ordinals_there i zero m j low high = absurd (omega arith)
  mark_ordinals_there i (suc n) m j low high = elim (Bool-cases (leb j i)) [
    | inl p ↦
        (let same : j ≡ i = ground arith in
          mark_ordinals_kept (i + 1) n _ _ (rw (same, lookup-insert, eq_refl) refl))
    | inr p ↦ mark_ordinals_there (i + 1) n _ j (ground arith) (ground arith)
  ]

  mark_ordinals_found :
      (i n : ℕ) (m : Assoc Bool) (key : Text)
      → lookup key (mark_ordinals buf_vol_name sts i n m) ≡ some true
      → ((j : ℕ) × (i ≤ j) × (j < i + n) × (key ≡ claim_of_ordinal buf_vol_name sts j))
        ⊎ (lookup key m ≡ some true)
  unfolding mark_ordinals
  mark_ordinals_found i zero m key h = inr h
  mark_ordinals_found i (suc n) m key h = elim (mark_ordinals_found (i + 1) n _ key h) [
    | inl (j, low, high, same) ↦ inl (j, omega arith, omega arith, same)
    | inr at ↦ elim (Bool-cases (claim_of_ordinal buf_vol_name sts i == key)) [
      | inl p ↦ inl (i, omega arith, omega arith, sym ((eq_iff _ key).0 p))
      | inr p ↦ inr (rw (lookup-insert, p) at at)
    ]
  ]

  -- A claim is in use: by a pod, or by an ordinal below the number of replicas.
  abbrev pub InUse : List (List PodVolume) → ℕ → Text → Type 0
  InUse pods n claim =
      Has (Claims buf_vol_name claim) pods
      ⊎ ((i : ℕ) × (i < n) × (claim ≡ claim_of_ordinal buf_vol_name sts i))

  -- The map of the claims in use is right.
  pub in_use_iff :
      (pods : List (List PodVolume)) (used : Assoc Bool) (n : ℕ) (claim : Text)
      → add_claims (λ pod. pod) (λ pod. true) buf_vol_name pods [] ≡ some used
      → (in_use claim (mark_ordinals buf_vol_name sts 0 n used) ≡ true) ↔ InUse pods n claim
  in_use_iff pods used n claim h = (
    λ e. elim (mark_ordinals_found 0 n used claim ((is_in_use claim _).0 e)) [
      | inl (j, low, high, same) ↦ inr (j, omega arith, same)
      | inr at ↦
          elim (add_claims_found (λ pod. pod) (λ pod. true) buf_vol_name pods [] used claim true h
            at) [
              | inl has ↦ inl (Has-first (Claims buf_vol_name claim) (λ x. true ≡ true) pods has)
              | inr absent ↦ absurd (lookup-empty claim true absent)
            ]
    ],
    λ e. (is_in_use claim _).1 (elim e [
      | inl has ↦
          (let (w, at, yes_) =
              add_claims_there (λ pod. pod) (λ pod. true) buf_vol_name (λ w. w ≡ true) pods [] used
                claim (λ x. refl) h has in
            mark_ordinals_kept 0 n used claim (at ∙ ap some yes_))
      | inr (i, high, same) ↦ rw same (mark_ordinals_there 0 n used i (omega arith) (omega arith))
    ]),
  )

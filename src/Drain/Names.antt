-- ===== src/Drain/Names.antt =====
-- The names that the drain derives from a claim's name.
use logging_operator.Base.{
  ℕ, Text, codes, decimal, decimal-All, nat_eq, ◌≡◌, refl, ap, ◌∙◌, false, none, some, [], ◌∷◌,
  ◌++◌, append_assoc, arith,
}
use logging_operator.Base.Lists.{All}
use logging_operator.Drain.{
  PersistentVolumeClaim, DrainSpec, qualified_name, from_last_dash, placeholder_name, drainer_name,
}
use logging_operator.Drain.Reconcile.{claim_of_ordinal}

from_last_dash-none : (s : Text) → All (λ c. nat_eq c b'-' ≡ false) s → from_last_dash s ≡ none
unfolding from_last_dash
from_last_dash-none [] h = refl
from_last_dash-none (c ∷ s) (p, h) = rw (from_last_dash-none s h) (rw p refl)

from_last_dash-append :
    (a s t : Text) → from_last_dash s ≡ some t → from_last_dash (a ++ s) ≡ some t
unfolding from_last_dash
from_last_dash-append [] s t h = h
from_last_dash-append (c ∷ a) s t h = rw (from_last_dash-append a s t h) refl

dash_first :
    (s : Text) → from_last_dash s ≡ none → from_last_dash (codes "-" ++ s) ≡ some (codes "-" ++ s)
unfolding codes from_last_dash
dash_first s h = rw (from_last_dash, h) refl

-- Behind the last dash stands the ordinal.
from_last_dash-ordinal :
    (a : Text) (i : ℕ)
    → from_last_dash (a ++ (codes "-" ++ decimal i)) ≡ some (codes "-" ++ decimal i)
from_last_dash-ordinal a i = from_last_dash-append a _ _ (
    dash_first (decimal i) (
      from_last_dash-none (decimal i)
        (decimal-All (λ c. nat_eq c b'-' ≡ false) (λ d h. ground (arith, h)) i)))

from_last_dash-claim :
    (b sts : Text) (i : ℕ)
    → from_last_dash (claim_of_ordinal b sts i) ≡ some (codes "-" ++ decimal i)
unfolding claim_of_ordinal
from_last_dash-claim b sts i =
    from_last_dash-append b _ _
      (from_last_dash-append (codes "-") _ _ (from_last_dash-ordinal sts i))

-- The placeholder pod of the claim of an ordinal has the name of the stateful set's pod of that
-- ordinal, and its drainer job has that name with `-drainer`.
pub placeholder_name-ordinal :
    (spec : DrainSpec) (buf_vol_name : Text) (i : ℕ) (pvc : PersistentVolumeClaim)
    → pvc.name
      ≡ claim_of_ordinal buf_vol_name (qualified_name spec.logging_name (codes "fluentd")) i
    → let pod = qualified_name spec.logging_name (codes "fluentd") ++ (codes "-" ++ decimal i) in
      (placeholder_name spec pvc ≡ some pod)
      × (drainer_name spec pvc ≡ some (pod ++ codes "-drainer"))
unfolding placeholder_name drainer_name qualified_name
placeholder_name-ordinal spec b i pvc h =
    let sts = qualified_name spec.logging_name (codes "fluentd") in
    let at : from_last_dash pvc.name ≡ some (codes "-" ++ decimal i) =
      ap from_last_dash h ∙ from_last_dash-claim b sts i in
    (
      rw (placeholder_name, at) (ap some (simp append_assoc refl)),
      rw (drainer_name, at) (ap some (simp append_assoc refl)),
    )

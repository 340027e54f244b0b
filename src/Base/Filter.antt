-- ===== src/Base/Filter.antt =====
-- Boolean tests as decisions, for the library's `filter`.
use mathlib.Core.Path.{◌≡◌, refl}
use mathlib.Core.Bool.{Bool, true, false}
use mathlib.Core.Logic.{ite}
use logging_operator.Base.Tests.{if◌then◌else◌}

pub decide : (b : Bool) → Dec (b ≡ true)
decide true = yes refl
decide false = no λ h. cc (h)

-- The branch of the program is the branch on the decision.
pub branch {ℓ} :
    {B : Type ℓ} (b : Bool) (x y : B) → (if b then x else y) ≡ ite {C = B} (decide b) x y
unfolding decide
branch true x y = refl
branch false x y = refl

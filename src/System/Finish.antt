-- ===== src/System/Finish.antt =====
-- `unsetBufferPath` of system.go, and the end of `CreateSystem` that calls it. What is none reads a
-- section, or an output, that is nil: the code panics.
use logging_operator.Base.{
  ltb, Text, codes, ◌==◌, Bool, false, Option, none, some, List, [], ◌∷◌, ◌≡◌, refl, if◌then◌else◌,
}
use mathlib.Core.Option
use logging_operator.Base.Int.{ℤ}
use logging_operator.Base.Assoc.{Assoc, delete}
use logging_operator.Directive.{Directive, absent, generic, custom, Directives, nil, cons}
use logging_operator.Flow.{Flow}
use logging_operator.Router.{System}

unfoldable pub unset_params : Assoc Text → Assoc Text
unfolding delete
unset_params params = delete (codes "path") params

unfoldable pub cons_to : Option Directive → Option Directives → Option Directives
cons_to none ds = none
cons_to (some d) none = none
cons_to (some d) (some ds) = some (cons d ds)

-- `unsetBufferPath`: it stops at a buffer, whose sections it leaves.
unfoldable mutual
  unfolding unset_params cons_to

  pub unset_buffer_path : Directive → Option Directive
  unset_buffer_path absent = none
  unset_buffer_path (generic meta params sections) =
      if meta.directive == codes "buffer"
      then some (generic meta (unset_params params) sections)
      else Option.map (generic meta params) (unset_all sections)
  unset_buffer_path (custom meta params sections) =
      Option.map (custom meta params) (unset_all sections)

  pub unset_all : Directives → Option Directives
  unset_all nil = some nil
  unset_all (cons d ds) = cons_to (unset_buffer_path d) (unset_all ds)

-- A loop over pointers that panics where a round does
unfoldable pub onto : {A : Type 0} → Option A → Option (List A) → Option (List A)
onto none l = none
onto (some a) none = none
onto (some a) (some l) = some (a ∷ l)

unfoldable pub each : {A : Type 0} → (A → Option A) → List A → Option (List A)
unfolding onto
each f [] = some []
each f (a ∷ l) = onto (f a) (each f l)

unfoldable pub unset_flow : Flow → Option Flow
unfolding unset_buffer_path each
unset_flow f = Option.map (λ ds. record f { outputs = ds }) (each unset_buffer_path f.outputs)

unfoldable pub several : ℤ → Bool
several (ℤ.pos n) = ltb 1 n
several (ℤ.negsuc n) = false

-- With several workers no buffer keeps its path.
unfoldable pub finish : ℤ → System → Option System
unfolding unset_flow several each
finish workers s =
    if several workers
    then Option.map (λ flows. record s { flows = flows }) (each unset_flow s.flows)
    else some s

-- What a loop returns was returned by its rounds.
pub onto-some :
    {A : Type 0} (o : Option A) (os : Option (List A)) (l : List A)
    → onto o os ≡ some l
    → (a : A) × (r : List A) × (o ≡ some a) × (os ≡ some r) × (l ≡ a ∷ r)
unfolding onto
onto-some none os l h = absurd (cc)
onto-some (some a) none l h = absurd (cc)
onto-some (some a) (some r) l h = (a, r, refl, refl, cc)

pub map-some :
    {A B : Type 0} (f : A → B) (o : Option A) (b : B)
    → Option.map f o ≡ some b
    → (a : A) × (o ≡ some a) × (b ≡ f a)
map-some f none b h = absurd (cc)
map-some f (some a) b h = (a, refl, cc)

-- ===== src/System/Buffers.antt =====
-- What becomes of the buffers' paths with several workers.
use logging_operator.Base.{
  ℕ, ◌<◌, ltb, Text, codes, ◌==◌, eq_refl, ◌≡◌, refl, Bool, true, false, ◌||◌, ◌&&◌, Option, none,
  some, List, [], ◌∷◌, arith, if◌then◌else◌, Bool-cases, inl, inr, ◌⊎◌,
}
use mathlib.Core.Option
use logging_operator.Base.Int.{pos}
use logging_operator.Base.Lists.{All}
use logging_operator.Base.Assoc.{Assoc, lookup, lookup-delete}
use logging_operator.Directive.{Directive, absent, generic, custom, Directives, nil, cons}
use logging_operator.Flow.{Flow}
use logging_operator.Router.{System}
use logging_operator.System.Finish.{
  unset_params, unset_buffer_path, unset_all, unset_flow, several, finish, each, onto, cons_to,
}

has_path : Option Text → Bool
has_path none = false
has_path (some v) = true

-- A buffer of the directive, or of its sections, has a path; the sections of a buffer do not count.
unfoldable mutual
  unfolding has_path

  pub keeps_path : Directive → Bool
  keeps_path absent = false
  keeps_path (generic meta params sections) =
      if meta.directive == codes "buffer"
      then has_path (lookup (codes "path") params)
      else any_keeps_path sections
  keeps_path (custom meta params sections) = any_keeps_path sections

  any_keeps_path : Directives → Bool
  any_keeps_path nil = false
  any_keeps_path (cons d ds) = keeps_path d || any_keeps_path ds

unset_lookup :
    (params : Assoc Text) → has_path (lookup (codes "path") (unset_params params)) ≡ false
unfolding has_path unset_params
unset_lookup params =
    rw (unset_params, lookup-delete (codes "path") (codes "path") params)
      (rw (eq_refl (codes "path")) refl)

-- No nil is met in the sections that are visited.
unfoldable mutual
  pub sound : Directive → Bool
  sound absent = false
  sound (generic meta params sections) =
      if meta.directive == codes "buffer" then true else all_sound sections
  sound (custom meta params sections) = all_sound sections

  pub all_sound : Directives → Bool
  all_sound nil = true
  all_sound (cons d ds) = sound d && all_sound ds

unfoldable pub outputs_sound : List Directive → Bool
unfolding sound
outputs_sound [] = true
outputs_sound (d ∷ ds) = sound d && outputs_sound ds

unfoldable pub flows_sound : List Flow → Bool
unfolding outputs_sound
flows_sound [] = true
flows_sound (f ∷ fs) = outputs_sound f.outputs && flows_sound fs

-- The result of a visit: nothing where a nil is met, and no path otherwise.
Visited : {A : Type 0} → (A → Type 0) → Bool → Option A → Type 0
Visited P true o = (a : _) × (o ≡ some a) × P a
Visited P false o = o ≡ none

Visited-map :
    {A B : Type 0} (P : A → Type 0) (Q : B → Type 0) (f : A → B) (b : Bool) (o : Option A)
    → ((a : A) → P a → Q (f a))
    → Visited P b o
    → Visited Q b (Option.map f o)
unfolding Visited
Visited-map P Q f true o step (a, e, p) = (f a, rw e refl, step a p)
Visited-map P Q f false o step e = rw e refl

Visited-cons :
    (b c : Bool) (d : Option Directive) (ds : Option Directives)
    → Visited (λ d. keeps_path d ≡ false) b d
    → Visited (λ ds. any_keeps_path ds ≡ false) c ds
    → Visited (λ ds. any_keeps_path ds ≡ false) (b && c) (cons_to d ds)
unfolding Visited cons_to keeps_path
Visited-cons true true d ds (x, e, p) (xs, es, ps) = (cons x xs, rw (e, es) refl, cc (p, ps))
Visited-cons true false none ds p e = refl
Visited-cons true false (some d) ds p e = rw e refl
Visited-cons false c d ds e q = rw e refl

Visited-onto :
    {A : Type 0} (P : A → Type 0) (b c : Bool) (d : Option A) (ds : Option (List A))
    → Visited P b d
    → Visited (All P) c ds
    → Visited (All P) (b && c) (onto d ds)
unfolding Visited onto
Visited-onto P true true d ds (x, e, p) (xs, es, ps) = (x ∷ xs, rw (e, es) refl, (p, ps))
Visited-onto P true false none ds p e = refl
Visited-onto P true false (some d) ds p e = rw e refl
Visited-onto P false c d ds e q = rw e refl

mutual
  unfolding unset_buffer_path keeps_path sound Visited

  unset_buffer_path-Visited :
      (d : Directive) → Visited (λ d. keeps_path d ≡ false) (sound d) (unset_buffer_path d)
  unset_buffer_path-Visited absent = refl
  unset_buffer_path-Visited (generic meta params sections) =
      elim (Bool-cases (meta.directive == codes "buffer")) [
        | inl p ↦ rw p (
          generic meta (unset_params params) sections,
          refl,
          rw (keeps_path, p) (unset_lookup params),
        )
        | inr p ↦ rw p (
            Visited-map (λ ds. any_keeps_path ds ≡ false) (λ d. keeps_path d ≡ false)
              (generic meta params) (all_sound sections) (unset_all sections)
              (λ ds q. rw (keeps_path, p) q) (unset_all-Visited sections))
      ]
  unset_buffer_path-Visited (custom meta params sections) =
      Visited-map (λ ds. any_keeps_path ds ≡ false) (λ d. keeps_path d ≡ false) (custom meta params)
        (all_sound sections) (unset_all sections) (λ ds q. q) (unset_all-Visited sections)

  unset_all-Visited :
      (ds : Directives) → Visited (λ ds. any_keeps_path ds ≡ false) (all_sound ds) (unset_all ds)
  unset_all-Visited nil = (nil, refl, refl)
  unset_all-Visited (cons d ds) =
      Visited-cons (sound d) (all_sound ds) (unset_buffer_path d) (unset_all ds)
        (unset_buffer_path-Visited d) (unset_all-Visited ds)

-- No buffer of the flow's outputs has a path.
abbrev pub NoBufferPath : Flow → Type 0
NoBufferPath f = All (λ d. keeps_path d ≡ false) f.outputs

unset_outputs-Visited :
    (ds : List Directive)
    → Visited (All (λ d. keeps_path d ≡ false)) (outputs_sound ds) (each unset_buffer_path ds)
unfolding Visited outputs_sound each
unset_outputs-Visited [] = ([], refl, tt)
unset_outputs-Visited (d ∷ ds) =
    Visited-onto (λ d. keeps_path d ≡ false) (sound d) (outputs_sound ds) (unset_buffer_path d)
      (each unset_buffer_path ds) (unset_buffer_path-Visited d) (unset_outputs-Visited ds)

unset_flow-Visited : (f : Flow) → Visited NoBufferPath (outputs_sound f.outputs) (unset_flow f)
unfolding unset_flow
unset_flow-Visited f =
    Visited-map (All (λ d. keeps_path d ≡ false)) NoBufferPath (λ ds. record f { outputs = ds })
      (outputs_sound f.outputs) (each unset_buffer_path f.outputs) (λ ds p. p)
      (unset_outputs-Visited f.outputs)

unset_flows-Visited :
    (fs : List Flow) → Visited (All NoBufferPath) (flows_sound fs) (each unset_flow fs)
unfolding Visited flows_sound each
unset_flows-Visited [] = ([], refl, tt)
unset_flows-Visited (f ∷ fs) =
    Visited-onto NoBufferPath (outputs_sound f.outputs) (flows_sound fs) (unset_flow f)
      (each unset_flow fs) (unset_flow-Visited f) (unset_flows-Visited fs)

-- How the code ends with more than one worker: with no buffer path, or in a panic.
abbrev pub Ended : ℕ → System → Type 0
Ended workers s =
    ((flows_sound s.flows ≡ true)
      × (t : System) × (finish (pos workers) s ≡ some t)
      × All NoBufferPath t.flows)
    ⊎ ((flows_sound s.flows ≡ false) × (finish (pos workers) s ≡ none))

unset_flows-finished :
    (s : System) (b : Bool)
    → Visited (All NoBufferPath) b (each unset_flow s.flows)
    → let end = Option.map (λ flows. record s { flows = flows }) (each unset_flow s.flows) in
      ((b ≡ true) × (t : System) × (end ≡ some t) × All NoBufferPath t.flows)
      ⊎ ((b ≡ false) × (end ≡ none))
unfolding Visited
unset_flows-finished s true (fs, e, p) = inl (refl, record s { flows = fs }, rw e refl, p)
unset_flows-finished s false e = inr (refl, rw e refl)

-- With more than one worker, where the outputs and the sections that are visited are not nil, the
-- code returns, and no buffer of an output keeps its path, at any depth of sections that are not
-- themselves in a buffer; where one of them is nil, it panics.
pub finish-All : (workers : ℕ) (s : System) → 1 < workers → Ended workers s
unfolding finish several
finish-All workers s h =
    let test : ltb 1 workers ≡ true = ground (arith, h) in
    rw (test) (unset_flows-finished s (flows_sound s.flows) (unset_flows-Visited s.flows))

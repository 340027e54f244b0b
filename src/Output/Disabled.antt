-- ===== src/Output/Disabled.antt =====
-- A disabled buffer of an output, where system.go takes the paths of buffers away.
use logging_operator.Base.{
  Text, codes, ◌==◌, ◌≡◌, refl, ap, ◌∙◌, true, Option, none, some, List, [], ◌∷◌, ◌⊎◌, inl, inr,
}
use mathlib.Core.Option
use logging_operator.Base.Int.{ℤ}
use logging_operator.Base.Assoc.{Assoc}
use logging_operator.Base.Lists.{Has}
use logging_operator.Directive.{Directive, absent, generic, Directives, nil, cons, to_list}
use logging_operator.Flow.{Flow}
use logging_operator.Router.{System}
use logging_operator.StringsMap.{Json, FieldFault, SecretLoader}
use logging_operator.System.Finish.{
  cons_to, unset_buffer_path, unset_all, onto, each, unset_flow, several, finish,
}
use logging_operator.Output.{match_meta, or_empty}
use logging_operator.Output.Buffer.{Buffer, empty_buffer, buffer_to_directive}
use logging_operator.Output.Kinds.{Buffered, to_directive, buffer_of, buffer_id}
use logging_operator.Output.Defaults.{MadeWith, returned, refused, to_directive-MadeWith}

cons_to-none : (o : Option Directive) → cons_to o none ≡ none
unfolding cons_to
cons_to-none none = refl
cons_to-none (some d) = refl

unset_all-absent : (ds : Directives) → Has (λ d. d ≡ absent) (to_list ds) → unset_all ds ≡ none
unfolding unset_all cons_to unset_buffer_path
unset_all-absent nil has = absurd has
unset_all-absent (cons d ds) (inl e) = rw e refl
unset_all-absent (cons d ds) (inr has) =
    rw (unset_all-absent ds has) (cons_to-none (unset_buffer_path d))

-- A directive with a nil section, that is not a buffer
unset_match :
    (type id : Text) (params : Assoc Text) (ds : Directives)
    → Has (λ d. d ≡ absent) (to_list ds)
    → unset_buffer_path (generic (match_meta type id) params ds) ≡ none
unfolding unset_buffer_path match_meta codes ◌==◌
unset_match type id params ds has = ap (Option.map _) (unset_all-absent ds has)

onto-none : {A : Type 0} (o : Option A) → onto o none ≡ none
unfolding onto
onto-none none = refl
onto-none (some a) = refl

each-none : {A : Type 0} (f : A → Option A) (l : List A) → Has (λ a. f a ≡ none) l → each f l ≡ none
unfolding each onto
each-none f [] has = absurd has
each-none f (a ∷ l) (inl e) = rw e refl
each-none f (a ∷ l) (inr has) = rw (each-none f l has) (onto-none (f a))

Has-imp : {A : Type 0} (P Q : A → Type 0) → ((a : A) → P a → Q a) → (l : List A) → Has P l → Has Q l
Has-imp P Q h [] has = absurd has
Has-imp P Q h (a ∷ l) (inl p) = inl (h a p)
Has-imp P Q h (a ∷ l) (inr has) = inr (Has-imp P Q h l has)

finish-none :
    (workers : ℤ) (s : System) (d : Directive)
    → several workers ≡ true
    → unset_buffer_path d ≡ none
    → Has (λ (f : Flow). Has (λ o. o ≡ d) f.outputs) s.flows
    → finish workers s ≡ none
unfolding finish unset_flow
finish-none workers s d several_workers panics has = rw several_workers (
    ap (Option.map _) (
      each-none unset_flow s.flows (
        Has-imp _ _
          (λ (f : Flow) h. ap (Option.map _) (
            each-none unset_buffer_path f.outputs
              (Has-imp _ _ (λ o e. ap unset_buffer_path e ∙ panics) f.outputs h)))
          s.flows has)))

module _ {S : Type 0} (json : Json) (loader : Option (SecretLoader S)) where
  disabled-absent :
      (id : Text) (out : Buffered S) (b : Buffer)
      → buffer_of out ≡ some b
      → b.disabled ≡ true
      → buffer_to_directive json loader (buffer_id id out) (or_empty empty_buffer (buffer_of out))
        ≡ inl absent
  unfolding or_empty buffer_to_directive
  disabled-absent id out b set disabled = rw (set, disabled) refl

  unset-MadeWith :
      (made : Directive ⊎ List FieldFault) (d : Directive)
      → MadeWith absent made
      → made ≡ inl d
      → unset_buffer_path d ≡ none
  unset-MadeWith made d (returned type id params ds e has) h =
      let same : d ≡ generic (match_meta type id) params ds = cc (e, h) in
      ap unset_buffer_path same ∙ unset_match type id params ds has
  unset-MadeWith made d (refused errs e) h = absurd (cc (e, h))

  -- If an output of these kinds has a disabled buffer, and is made into a directive, then a system
  -- that has a flow with this directive among its outputs is never returned with several workers:
  -- taking the paths of buffers away reads a nil section.
  pub finish-disabled_buffer :
      (id : Text) (out : Buffered S) (b : Buffer) (d : Directive) (workers : ℤ) (s : System)
      → buffer_of out ≡ some b
      → b.disabled ≡ true
      → to_directive json loader id out ≡ inl d
      → several workers ≡ true
      → Has (λ (f : Flow). Has (λ o. o ≡ d) f.outputs) s.flows
      → finish workers s ≡ none
  finish-disabled_buffer id out b d workers s set disabled made several_workers has =
      finish-none workers s d several_workers
        (unset-MadeWith (to_directive json loader id out) d
          (to_directive-MadeWith absent json loader id out (disabled-absent id out b set disabled))
          made)
        has

-- ===== src/System/Paths.antt =====
-- What taking the paths of buffers away leaves as it is.
use logging_operator.Base.{
  Text, codes, ◌==◌, eq_iff, ◌≡◌, ◌≢◌, refl, sym, subst, Option, none, some, List, [], ◌∷◌,
  if◌then◌else◌, Bool-cases, inl, inr,
}
use logging_operator.Base.Assoc.{lookup, lookup-delete}
use logging_operator.Directive.{
  PluginMeta, Params, Directive, absent, generic, custom, Directives, nil, cons,
}
use logging_operator.Flow.{Flow}
use logging_operator.System.Finish.{
  unset_params, cons_to, unset_buffer_path, unset_all, each, onto-some, map-some, unset_flow,
}

-- The second directive is the first, but for its buffers' paths: a buffer has the same parameters but no
-- path, and the same sections; any other directive has the same parameters, and sections that are
-- related in this way, one by one.
mutual
  pub data Pathless : Directive → Directive → Type 0 where
    buffer :
        (meta : PluginMeta) (params left : Params) (ds : Directives)
        → meta.directive ≡ codes "buffer"
        → ((key : Text)
            → lookup key left ≡ (if codes "path" == key then none else lookup key params))
        → Pathless (generic meta params ds) (generic meta left ds)
    other :
        (meta : PluginMeta) (params : Params) (ds es : Directives)
        → meta.directive ≢ codes "buffer"
        → AllPathless ds es
        → Pathless (generic meta params ds) (generic meta params es)
    other_custom :
        (meta : PluginMeta) (params : Params) (ds es : Directives)
        → AllPathless ds es
        → Pathless (custom meta params ds) (custom meta params es)

  pub data AllPathless : Directives → Directives → Type 0 where
    no_more : AllPathless nil nil
    and_more :
        (d e : Directive) (ds es : Directives)
        → Pathless d e
        → AllPathless ds es
        → AllPathless (cons d ds) (cons e es)

-- Two lists that are related one by one
pub data Pairwise {A : Type 0} (R : A → A → Type 0) : List A → List A → Type 0 where
  none_left : Pairwise R [] []
  next_pair : (a b : A) (l m : List A) → R a b → Pairwise R l m → Pairwise R (a ∷ l) (b ∷ m)

-- The second flow is the first, but for the paths of its outputs' buffers.
pub record IsPathless (f g : Flow) : Type 0 where
  pub plugin_meta : g.plugin_meta ≡ f.plugin_meta
  pub flow_id : g.flow_id ≡ f.flow_id
  pub filters : g.filters ≡ f.filters
  pub outputs : Pairwise Pathless f.outputs g.outputs
  pub matches : g.matches ≡ f.matches
  pub flow_label : g.flow_label ≡ f.flow_label

some_injective : {A : Type 0} {a b : A} → some a ≡ some b → a ≡ b
some_injective e = cc

cons_to-some :
    (o : Option Directive) (os : Option Directives) (es : Directives)
    → cons_to o os ≡ some es
    → (d : Directive) × (ds : Directives) × (o ≡ some d) × (os ≡ some ds) × (es ≡ cons d ds)
unfolding cons_to
cons_to-some none os es h = absurd (cc)
cons_to-some (some d) none es h = absurd (cc)
cons_to-some (some d) (some ds) es h = (d, ds, refl, refl, cc)

left_params :
    (params : Params) (key : Text)
    → lookup key (unset_params params) ≡ (if codes "path" == key then none else lookup key params)
unfolding unset_params
left_params params key = lookup-delete (codes "path") key params

mutual
  unfolding unset_buffer_path

  unset_buffer_path-Pathless : (d e : Directive) → unset_buffer_path d ≡ some e → Pathless d e
  unset_buffer_path-Pathless absent e h = absurd (cc)
  unset_buffer_path-Pathless (generic meta params sections) e h =
      elim (Bool-cases (meta.directive == codes "buffer")) [
        | inl p ↦ subst (Pathless (generic meta params sections)) (some_injective (rw p at h)) (
            buffer meta params (unset_params params) sections
              ((eq_iff meta.directive (codes "buffer")).0 p) (left_params params))
        | inr p ↦
            (let (es, made, same) = map-some _ _ e (rw p at h) in
              subst (Pathless (generic meta params sections)) (sym same) (
                other meta params sections es
                  (λ q. cc (p, (eq_iff meta.directive (codes "buffer")).1 q))
                  (unset_all-AllPathless sections es made)))
      ]
  unset_buffer_path-Pathless (custom meta params sections) e h =
      let (es, made, same) = map-some _ _ e h in
      subst (Pathless (custom meta params sections)) (sym same)
        (other_custom meta params sections es (unset_all-AllPathless sections es made))

  unset_all-AllPathless : (ds es : Directives) → unset_all ds ≡ some es → AllPathless ds es
  unset_all-AllPathless nil es h = subst (AllPathless nil) (some_injective h) no_more
  unset_all-AllPathless (cons d ds) es h =
      let (e, rest, first, more, same) = cons_to-some (unset_buffer_path d) (unset_all ds) es h in
      subst (AllPathless (cons d ds)) (sym same) (
        and_more d e ds rest (unset_buffer_path-Pathless d e first)
          (unset_all-AllPathless ds rest more))

each-Pairwise :
    {A : Type 0} (R : A → A → Type 0) (f : A → Option A)
    → ((a b : A) → f a ≡ some b → R a b)
    → (l m : List A) → each f l ≡ some m
    → Pairwise R l m
unfolding each
each-Pairwise R f step [] m h = subst (Pairwise R []) (some_injective h) none_left
each-Pairwise R f step (a ∷ l) m h =
    let (b, rest, first, more, same) = onto-some (f a) (each f l) m h in
    subst (Pairwise R (a ∷ l)) (sym same)
      (next_pair a b l rest (step a b first) (each-Pairwise R f step l rest more))

unset_flow-IsPathless : (f g : Flow) → unset_flow f ≡ some g → IsPathless f g
unfolding unset_flow
unset_flow-IsPathless f g h =
    let (outputs, made, same) = map-some _ _ g h in
    subst (IsPathless f) (sym same) (record {
      plugin_meta = refl;
      flow_id = refl;
      filters = refl;
      outputs =
          each-Pairwise Pathless unset_buffer_path unset_buffer_path-Pathless f.outputs outputs
            made;
      matches = refl;
      flow_label = refl;
    })

pub unset_flows-Pairwise :
    (fs gs : List Flow) → each unset_flow fs ≡ some gs → Pairwise IsPathless fs gs
unset_flows-Pairwise = each-Pairwise IsPathless unset_flow unset_flow-IsPathless

-- ===== src/Render/Order.antt =====
-- The text does not show the order in which Go's maps are iterated.
use logging_operator.Base.{ℕ, ◌+◌, Text, ◌≡◌, refl, List, [], ◌∷◌, arith, fun_ext}
use logging_operator.Base.Assoc.{keys}
use logging_operator.Base.Sort.{sort_strings}
use logging_operator.Base.Assoc.Laws.{SameMap, sorted_keys_eq}
use logging_operator.Directive.{
  PluginMeta, Params, Directive, absent, generic, custom, Directives, nil, cons, to_directives,
}
use logging_operator.Flow.{index}
use logging_operator.Router.{System, get_directives}
use logging_operator.Render.{
  Rendered, param_lines, render_params, render_named, render_directives, render_directive, render,
}

-- The same directives, but for the order of the parameters in the maps.
mutual
  pub data Same : Directive → Directive → Type 0 where
    both_absent : Same absent absent
    both_generic :
        {m : PluginMeta} {p q : Params} {ss ts : Directives}
        → SameMap p q
        → SameAll ss ts
        → Same (generic m p ss) (generic m q ts)
    both_custom :
        {m : PluginMeta} {p q : Params} {ss ts : Directives}
        → SameMap p q
        → SameAll ss ts
        → Same (custom m p ss) (custom m q ts)

  pub data SameAll : Directives → Directives → Type 0 where
    both_nil : SameAll nil nil
    both_cons :
        {d e : Directive} {ds es : Directives}
        → Same d e
        → SameAll ds es
        → SameAll (cons d ds) (cons e es)

index-SameMap : {p q : Params} (k : Text) → SameMap p q → index p k ≡ index q k
unfolding index
index-SameMap k s = ground (arith, s.values k)

param_lines-SameMap :
    (indent : ℕ) {p q : Params} (ks : List Text)
    → SameMap p q
    → param_lines indent p ks ≡ param_lines indent q ks
unfolding param_lines
param_lines-SameMap indent [] s = refl
param_lines-SameMap indent (k ∷ ks) s = cc (index-SameMap k s, param_lines-SameMap indent ks s)

render_params-SameMap :
    (indent : ℕ) {p q : Params} → SameMap p q → render_params indent p ≡ render_params indent q
unfolding render_params
render_params-SameMap indent {p} {q} s =
    cc (sorted_keys_eq s, param_lines-SameMap indent (sort_strings (keys q)) s)

module _ (step : ℕ) where
  render_named-SameMap :
      (indent : ℕ) (out : Text) (m : PluginMeta) {p q : Params} {f g : Text → Rendered}
      → SameMap p q
      → ((next : Text) → f next ≡ g next)
      → render_named step indent out m p f ≡ render_named step indent out m q g
  unfolding render_named
  render_named-SameMap indent out m {p} {q} {f} {g} s h =
      rw (render_params-SameMap (indent + step) s, fun_ext h) refl

  mutual
    unfolding render_directives

    render_directive-Same :
        {d e : Directive}
        → Same d e
        → (indent : ℕ) (out : Text)
        → render_directive step indent out d ≡ render_directive step indent out e
    render_directive-Same both_absent indent out = refl
    render_directive-Same (both_generic {m} s ss) indent out =
        render_named-SameMap indent out m s (render_directives-Same ss (indent + step))
    render_directive-Same (both_custom {m} s ss) indent out =
        render_named-SameMap indent out m s (render_directives-Same ss (indent + step))

    render_directives-Same :
        {ds es : Directives}
        → SameAll ds es
        → (indent : ℕ) (out : Text)
        → render_directives step indent out ds ≡ render_directives step indent out es
    render_directives-Same both_nil indent out = refl
    render_directives-Same (both_cons {es} s ss) indent out =
        rw (render_directive-Same s indent out, fun_ext (render_directives-Same ss indent)) refl

-- Two systems whose directives differ only in the order in which their parameter maps are iterated
-- are rendered to the same text, or stop at the same text with the same error.
pub render-Same :
    (step : ℕ) (out : Text) (s t : System)
    → SameAll (to_directives (get_directives s)) (to_directives (get_directives t))
    → render step out s ≡ render step out t
unfolding render
render-Same step out s t h = render_directives-Same step h 0 out

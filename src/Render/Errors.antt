-- ===== src/Render/Errors.antt =====
-- When the renderer stops, and what it writes when it does not.
use logging_operator.Base.{
  ℕ, ◌+◌, Text, is_empty, ◌≡◌, refl, Bool, true, false, not, ◌&&◌, [], ◌++◌, arith, append_assoc,
  append-nil, inl, inr, Bool-cases,
}
use logging_operator.Directive.{
  PluginMeta, Params, Directive, absent, generic, custom, Directives, nil, cons, to_directives,
}
use logging_operator.Router.{System, get_directives}
use logging_operator.Render.{
  Rendered, written, stopped, RenderFault, unnamed, then_render, within, open_line, meta_lines,
  close_line, render_params, render_named, render_directives, render_directive, render,
}

-- Every directive that is there has a name, and so have its sections.
unfoldable mutual
  is_named : Directive → Bool
  is_named absent = true
  is_named (generic meta params sections) = not (is_empty meta.directive) && all_named sections
  is_named (custom meta params sections) = not (is_empty meta.directive) && all_named sections

  pub all_named : Directives → Bool
  all_named nil = true
  all_named (cons d ds) = is_named d && all_named ds

unfoldable pub layout_around : ℕ → ℕ → PluginMeta → Params → Text → Text
layout_around step indent meta params sections =
    open_line indent meta
    ++ (meta_lines (indent + step) meta
        ++ (render_params (indent + step) params ++ (sections ++ close_line indent meta)))

-- The text of the directives, with no writer: each between its lines, the sections one step deeper.
unfoldable mutual
  unfolding layout_around

  pub layout : ℕ → ℕ → Directives → Text
  layout step indent nil = []
  layout step indent (cons d ds) = layout_directive step indent d ++ layout step indent ds

  pub layout_directive : ℕ → ℕ → Directive → Text
  layout_directive step indent absent = []
  layout_directive step indent (generic meta params sections) =
      layout_around step indent meta params (layout step (indent + step) sections)
  layout_directive step indent (custom meta params sections) =
      layout_around step indent meta params (layout step (indent + step) sections)

-- A text and an error with which the renderer stops
abbrev pub Stops : Rendered → Type 0
Stops r = (t : Text) × (e : RenderFault) × (r ≡ stopped t e)

module _ (step : ℕ) where
  render_named-layout :
      (indent : ℕ) (out : Text) (meta : PluginMeta) (params : Params) (f : Text → Rendered)
      (inner : Text)
      → is_empty meta.directive ≡ false
      → ((next : Text) → f next ≡ written (next ++ inner))
      → render_named step indent out meta params f
        ≡ written (out ++ layout_around step indent meta params inner)
  unfolding render_named layout_around
  render_named-layout indent out meta params f inner named h = rw (named, h _) (simp append_assoc)

  render_named-unnamed :
      (indent : ℕ) (out : Text) (meta : PluginMeta) (params : Params) (f : Text → Rendered)
      → is_empty meta.directive ≡ true
      → Stops (render_named step indent out meta params f)
  unfolding render_named
  render_named-unnamed indent out meta params f nameless = (out, unnamed meta, rw nameless refl)

  within-Stops : (name : Text) (r : Rendered) → Stops r → Stops (within name r)
  within-Stops name (written out) (t, e, h) = (t, e, cc)
  within-Stops name (stopped out e) h = (_, _, refl)

  then_render-Stops : (r : Rendered) (k : Text → Rendered) → Stops r → Stops (then_render r k)
  then_render-Stops (written out) k (t, e, h) = (t, e, cc)
  then_render-Stops (stopped out e) k h = (_, _, refl)

  render_named-Stops :
      (indent : ℕ) (out : Text) (meta : PluginMeta) (params : Params) (f : Text → Rendered)
      → ((next : Text) → Stops (f next))
      → Stops (render_named step indent out meta params f)
  unfolding render_named
  render_named-Stops indent out meta params f h = elim (Bool-cases (is_empty meta.directive)) [
    | inl p ↦ (out, unnamed meta, rw p refl)
    | inr p ↦ rw p (then_render-Stops _ _ (within-Stops meta.directive _ (h _)))
  ]

  mutual
    unfolding render_directives all_named layout

    render_directive-layout :
        (d : Directive)
        → is_named d ≡ true
        → (indent : ℕ) (out : Text)
        → render_directive step indent out d ≡ written (out ++ layout_directive step indent d)
    render_directive-layout absent h indent out = rw append-nil refl
    render_directive-layout (generic meta params sections) h indent out =
        render_named-layout indent out meta params _ (layout step (indent + step) sections)
          (ground arith) (render_directives-layout sections (ground arith) (indent + step))
    render_directive-layout (custom meta params sections) h indent out =
        render_named-layout indent out meta params _ (layout step (indent + step) sections)
          (ground arith) (render_directives-layout sections (ground arith) (indent + step))

    render_directives-layout :
        (ds : Directives)
        → all_named ds ≡ true
        → (indent : ℕ) (out : Text)
        → render_directives step indent out ds ≡ written (out ++ layout step indent ds)
    render_directives-layout nil h indent out = rw append-nil refl
    render_directives-layout (cons d ds) h indent out =
        rw
          (
            render_directive-layout d (ground arith) indent out,
            render_directives-layout ds (ground arith) indent
                (out ++ layout_directive step indent d),
          )
          (rw append_assoc refl)

  mutual
    unfolding render_directives all_named

    render_directive-Stops :
        (d : Directive)
        → is_named d ≡ false
        → (indent : ℕ) (out : Text) → Stops (render_directive step indent out d)
    render_directive-Stops absent h indent out = absurd (cc)
    render_directive-Stops (generic meta params sections) h indent out =
        elim (Bool-cases (is_empty meta.directive)) [
          | inl p ↦
              render_named-unnamed indent out meta params
                (λ next. render_directives step (indent + step) next sections) p
          | inr p ↦
              render_named-Stops indent out meta params
                (λ next. render_directives step (indent + step) next sections)
                (render_directives-Stops sections (ground arith) (indent + step))
        ]
    render_directive-Stops (custom meta params sections) h indent out =
        elim (Bool-cases (is_empty meta.directive)) [
          | inl p ↦
              render_named-unnamed indent out meta params
                (λ next. render_directives step (indent + step) next sections) p
          | inr p ↦
              render_named-Stops indent out meta params
                (λ next. render_directives step (indent + step) next sections)
                (render_directives-Stops sections (ground arith) (indent + step))
        ]

    render_directives-Stops :
        (ds : Directives)
        → all_named ds ≡ false
        → (indent : ℕ) (out : Text) → Stops (render_directives step indent out ds)
    render_directives-Stops nil h indent out = absurd (cc)
    render_directives-Stops (cons d ds) h indent out = elim (Bool-cases (is_named d)) [
      | inl p ↦
          rw (render_directive-layout d p indent out) (
            render_directives-Stops ds (ground arith) indent
              (out ++ layout_directive step indent d))
      | inr p ↦ then_render-Stops _ _ (render_directive-Stops d p indent out)
    ]

-- If every directive of the system has a name, the renderer adds their layout to its writer.
pub render-layout :
    (step : ℕ) (out : Text) (s : System)
    → all_named (to_directives (get_directives s)) ≡ true
    → render step out s ≡ written (out ++ layout step 0 (to_directives (get_directives s)))
unfolding render
render-layout step out s h = render_directives-layout step _ h 0 out

-- If a directive of the system has no name, at any depth of sections, the renderer stops with an error.
pub render-unnamed :
    (step : ℕ) (out : Text) (s : System)
    → all_named (to_directives (get_directives s)) ≡ false
    → Stops (render step out s)
unfolding render
render-unnamed step out s h = render_directives-Stops step _ h 0 out

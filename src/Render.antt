-- ===== src/Render.antt =====
-- pkg/sdk/logging/model/render/fluent.go: the text of a configuration. The writer takes every line;
-- its own errors are ignored by the code, and it is the text that was written.
pub mod Order
pub mod Errors
pub mod Layout
use logging_operator.Base.{
  ℕ, zero, suc, ◌+◌, Text, codes, is_empty, split_on, Bool, true, false, List, [], ◌∷◌, ◌++◌,
  if◌then◌else◌,
}
use logging_operator.Base.Assoc.{Assoc, keys}
use logging_operator.Base.Sort.{sort_strings}
use logging_operator.Directive.{
  PluginMeta, Params, Directive, absent, generic, custom, Directives, nil, cons, to_directives,
}
use logging_operator.Flow.{index}
use logging_operator.Router.{System, get_directives}

-- `strings.Repeat(" ", n)`
spaces : ℕ → Text
spaces zero = []
spaces (suc n) = b' ' ∷ spaces n

-- An empty line is not indented.
write_lines : ℕ → List Text → Text
unfolding spaces
write_lines indent [] = []
write_lines indent ([] ∷ ls) = b'\n' ∷ write_lines indent ls
write_lines indent ((c ∷ l) ∷ ls) = spaces indent ++ ((c ∷ l) ++ (b'\n' ∷ write_lines indent ls))

-- `indentedf`, of the formatted text
indented : ℕ → Text → Text
unfolding split_on write_lines
indented indent t = write_lines indent (split_on b'\n' t)

-- `tag`
tag_text : Text → Text
tag_text [] = []
tag_text (c ∷ t) = b' ' ∷ c ∷ t

-- A line with a keyword, unless the value is empty
optional_line : ℕ → Text → Text → Text
unfolding indented
optional_line indent keyword [] = []
optional_line indent keyword (c ∷ v) = indented indent (keyword ++ (c ∷ v))

param_lines : ℕ → Params → List Text → Text
unfolding indented index
param_lines indent params [] = []
param_lines indent params (k ∷ ks) =
    indented indent (k ++ (b' ' ∷ index params k)) ++ param_lines indent params ks

-- The lines of the parameters, by their sorted names
pub render_params : ℕ → Params → Text
unfolding param_lines sort_strings
render_params indent params = param_lines indent params (sort_strings (keys params))

pub open_line : ℕ → PluginMeta → Text
unfolding indented tag_text
open_line indent meta =
    indented indent (b'<' ∷ (meta.directive ++ (tag_text meta.tag ++ codes ">")))

pub close_line : ℕ → PluginMeta → Text
unfolding indented
close_line indent meta = indented indent (codes "</" ++ (meta.directive ++ codes ">"))

pub meta_lines : ℕ → PluginMeta → Text
unfolding optional_line
meta_lines indent meta =
    optional_line indent (codes "@type ") meta.type
    ++ (optional_line indent (codes "@id ") meta.id
        ++ (optional_line indent (codes "@label ") meta.label
            ++ optional_line indent (codes "@log_level ") meta.log_level))

-- What is written, and the error: a directive with no name, behind the names of those around it.
pub data RenderFault : Type 0 where
  unnamed : PluginMeta → RenderFault
  in_section : Text → RenderFault → RenderFault

pub data Rendered : Type 0 where
  written : Text → Rendered
  stopped : Text → RenderFault → Rendered

-- What is written next, after a text; an error ends the rest.
abbrev pub then_render : Rendered → (Text → Rendered) → Rendered
then_render (written out) k = k out
then_render (stopped out e) k = stopped out e

abbrev pub within : Text → Rendered → Rendered
within name (written out) = written out
within name (stopped out e) = stopped out (in_section name e)

-- A present directive around its sections, which are rendered behind a text.
render_named : ℕ → ℕ → Text → PluginMeta → Params → (Text → Rendered) → Rendered
unfolding open_line meta_lines render_params close_line
render_named step indent out meta params sections =
    if is_empty meta.directive
    then stopped out (unnamed meta)
    else then_render
        (within meta.directive (
          sections (
            out
            ++ (open_line indent meta
                ++ (meta_lines (indent + step) meta ++ render_params (indent + step) params)))))
        (λ next. written (next ++ close_line indent meta))

-- `RenderDirectives`, where `step` is the renderer's `Indent` and `out` is what its writer holds.
unfoldable mutual
  unfolding render_named

  render_directives : ℕ → ℕ → Text → Directives → Rendered
  render_directives step indent out nil = written out
  render_directives step indent out (cons d ds) =
      then_render (render_directive step indent out d)
        (λ next. render_directives step indent next ds)

  render_directive : ℕ → ℕ → Text → Directive → Rendered
  render_directive step indent out absent = written out
  render_directive step indent out (generic meta params sections) =
      render_named step indent out meta params
        (λ next. render_directives step (indent + step) next sections)
  render_directive step indent out (custom meta params sections) =
      render_named step indent out meta params
        (λ next. render_directives step (indent + step) next sections)

-- `FluentRender.Render`
pub render : ℕ → Text → System → Rendered
unfolding render_directives get_directives
render step out config = render_directives step 0 out (to_directives (get_directives config))

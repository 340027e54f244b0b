-- ===== src/Render/Layout.antt =====
-- The text of a configuration, described by its lines.
use logging_operator.Base.{
  ℕ, zero, suc, ◌+◌, Text, codes, split_on, ◌≡◌, refl, sym, ap, ◌∙◌, true, Option, none, some, List,
  [], ◌∷◌, ◌++◌, map, append_assoc, append-nil, arith,
}
use Prim.Native.Nat.{◌*◌}
use logging_operator.Base.Assoc.{keys, lookup}
use logging_operator.Base.Sort.{sort_strings}
use logging_operator.Flow.{index}
use logging_operator.Directive.{
  PluginMeta, Params, Directive, absent, generic, custom, Directives, nil, cons, to_directives,
}
use logging_operator.Router.{System, get_directives}
use logging_operator.Render.{
  written, spaces, write_lines, indented, tag_text, optional_line, param_lines, render_params,
  open_line, close_line, meta_lines, render,
}
use logging_operator.Render.Errors.{
  all_named, layout_around, layout, layout_directive, render-layout,
}

abbrev pub replicate : ℕ → ℕ → Text
replicate zero c = []
replicate (suc n) c = c ∷ replicate n c

-- What a line says, beside the number of sections that it stands in
abbrev pub Line : Type 0
Line = ℕ × Text

abbrev pub heading : (name tag : Text) → Text
heading name [] = codes "<" ++ (name ++ codes ">")
heading name (c ∷ tag) = codes "<" ++ (name ++ (codes " " ++ (c ∷ tag) ++ codes ">"))

abbrev pub keyword : ℕ → Text → Text → List Line
keyword depth name [] = []
keyword depth name (c ∷ v) = (depth, name ++ (codes " " ++ (c ∷ v))) ∷ []

abbrev pub value_or_empty : Option Text → Text
value_or_empty none = []
value_or_empty (some v) = v

abbrev pub parameter : ℕ → Params → Text → Line
parameter depth params name = (depth, name ++ (codes " " ++ value_or_empty (lookup name params)))

-- The lines between the two tags, without those of the sections
abbrev pub content : ℕ → PluginMeta → Params → List Line
content depth meta params =
    keyword depth (codes "@type") meta.type
    ++ (keyword depth (codes "@id") meta.id
        ++ (keyword depth (codes "@label") meta.label
            ++ (keyword depth (codes "@log_level") meta.log_level
                ++ map (parameter depth params) (sort_strings (keys params)))))

abbrev pub element : ℕ → PluginMeta → Params → List Line → List Line
element depth meta params inner =
    (depth, heading meta.directive meta.tag)
    ∷ (content (suc depth) meta params
        ++ (inner ++ (depth, codes "</" ++ (meta.directive ++ codes ">")) ∷ []))

-- The lines of directives that stand in some number of sections
unfoldable mutual
  pub lines : ℕ → Directives → List Line
  lines depth nil = []
  lines depth (cons d ds) = directive_lines depth d ++ lines depth ds

  directive_lines : ℕ → Directive → List Line
  directive_lines depth absent = []
  directive_lines depth (generic meta params sections) =
      element depth meta params (lines (suc depth) sections)
  directive_lines depth (custom meta params sections) =
      element depth meta params (lines (suc depth) sections)

-- One line of text behind a margin; an empty one has no margin.
abbrev pub margined : ℕ → Text → Text
margined margin [] = codes "\n"
margined margin (c ∷ t) = replicate margin b' ' ++ ((c ∷ t) ++ codes "\n")

abbrev pub paragraph : ℕ → List Text → Text
paragraph margin [] = []
paragraph margin (t ∷ ts) = margined margin t ++ paragraph margin ts

-- The lines as a text, where each section has `step` more spaces than what it stands in. A value may
-- itself contain ends of lines.
abbrev pub text_of : ℕ → List Line → Text
text_of step [] = []
text_of step ((depth, t) ∷ ls) = paragraph (depth * step) (split_on b'\n' t) ++ text_of step ls

text_of-append :
    (step : ℕ) (ls ms : List Line) → text_of step (ls ++ ms) ≡ text_of step ls ++ text_of step ms
text_of-append step [] ms = refl
text_of-append step ((depth, t) ∷ ls) ms =
    rw (text_of-append step ls ms)
      (sym (append_assoc (paragraph (depth * step) (split_on b'\n' t)) _ _))

spaces-replicate : (n : ℕ) → spaces n ≡ replicate n b' '
unfolding spaces
spaces-replicate zero = refl
spaces-replicate (suc n) = ap (◌∷◌ b' ') (spaces-replicate n)

write_lines-paragraph : (n : ℕ) (ts : List Text) → write_lines n ts ≡ paragraph n ts
unfolding write_lines codes
write_lines-paragraph n [] = refl
write_lines-paragraph n ([] ∷ ts) = ap (◌∷◌ b'\n') (write_lines-paragraph n ts)
write_lines-paragraph n ((c ∷ t) ∷ ts) =
    rw (write_lines-paragraph n ts, spaces-replicate n) (simp append_assoc refl)

indented-paragraph : (n : ℕ) (t : Text) → indented n t ≡ paragraph n (split_on b'\n' t)
unfolding indented
indented-paragraph n t = write_lines-paragraph n (split_on b'\n' t)

both : {a b c d : Text} → a ≡ b → c ≡ d → a ++ c ≡ b ++ d
both e f = cc (e, f)

indented-text_of :
    (step depth : ℕ) (t : Text) → indented (depth * step) t ≡ text_of step ((depth, t) ∷ [])
indented-text_of step depth t = indented-paragraph (depth * step) t ∙ sym (append-nil _)

heading-tag : (name tag : Text) → b'<' ∷ (name ++ (tag_text tag ++ codes ">")) ≡ heading name tag
unfolding tag_text codes
heading-tag name [] = refl
heading-tag name (c ∷ tag) = refl

index-value : (o : Option Text) → elim o [ none ↦ [] | some v ↦ v ] ≡ value_or_empty o
index-value none = refl
index-value (some v) = refl

module _ (step : ℕ) where
  open_line-text_of :
      (depth : ℕ) (meta : PluginMeta)
      → open_line (depth * step) meta ≡ text_of step ((depth, heading meta.directive meta.tag) ∷ [])
  unfolding open_line
  open_line-text_of depth meta =
      ap (indented (depth * step)) (heading-tag meta.directive meta.tag)
      ∙ indented-text_of step depth (heading meta.directive meta.tag)

  close_line-text_of :
      (depth : ℕ) (meta : PluginMeta)
      → close_line (depth * step) meta
        ≡ text_of step ((depth, codes "</" ++ (meta.directive ++ codes ">")) ∷ [])
  unfolding close_line
  close_line-text_of depth meta =
      indented-text_of step depth (codes "</" ++ (meta.directive ++ codes ">"))

  optional_line-text_of :
      (depth : ℕ) (name with_space value : Text)
      → with_space ≡ name ++ codes " "
      → optional_line (depth * step) with_space value ≡ text_of step (keyword depth name value)
  unfolding optional_line
  optional_line-text_of depth name with_space [] e = refl
  optional_line-text_of depth name with_space (c ∷ v) e =
      indented-text_of step depth (with_space ++ (c ∷ v))
      ∙ ap (λ t. text_of step ((depth, t) ∷ []))
          (ap (λ t. t ++ (c ∷ v)) e ∙ append_assoc name (codes " ") (c ∷ v))

  param_lines-text_of :
      (depth : ℕ) (params : Params) (names : List Text)
      → param_lines (depth * step) params names ≡ text_of step (map (parameter depth params) names)
  unfolding param_lines index codes
  param_lines-text_of depth params [] = refl
  param_lines-text_of depth params (k ∷ ks) =
      both
        (ap (λ v. indented (depth * step) (k ++ b' ' ∷ v)) (index-value (lookup k params))
          ∙ indented-paragraph (depth * step)
              (k ++ (codes " " ++ value_or_empty (lookup k params))))
        (param_lines-text_of depth params ks)

  content-text_of :
      (depth : ℕ) (meta : PluginMeta) (params : Params)
      → meta_lines (depth * step) meta ++ render_params (depth * step) params
        ≡ text_of step (content depth meta params)
  unfolding meta_lines render_params codes
  content-text_of depth meta params =
      let names = sort_strings (keys params) in
      both
        (both (optional_line-text_of depth (codes "@type") (codes "@type ") meta.type refl) (
          both (optional_line-text_of depth (codes "@id") (codes "@id ") meta.id refl) (
            both (optional_line-text_of depth (codes "@label") (codes "@label ") meta.label refl) (
              optional_line-text_of depth (codes "@log_level") (codes "@log_level ") meta.log_level
                refl))))
        (param_lines-text_of depth params names)
      ∙ simp (append_assoc, text_of-append) refl

  deeper : (depth : ℕ) → depth * step + step ≡ suc depth * step
  deeper depth = omega arith

  element-text_of :
      (depth : ℕ) (meta : PluginMeta) (params : Params) (inner : List Line) (sections : Text)
      → sections ≡ text_of step inner
      → layout_around step (depth * step) meta params sections
        ≡ text_of step (element depth meta params inner)
  unfolding layout_around
  element-text_of depth meta params inner sections e = rw (deeper depth) (
      both (open_line-text_of depth meta) (
        sym (append_assoc (meta_lines (suc depth * step) meta) _ _)
        ∙ both (content-text_of (suc depth) meta params) (both e (close_line-text_of depth meta)))
      ∙ simp (append_assoc, text_of-append) refl)

  mutual
    unfolding layout lines

    directive_lines-text_of :
        (d : Directive) (depth : ℕ)
        → layout_directive step (depth * step) d ≡ text_of step (directive_lines depth d)
    directive_lines-text_of absent depth = refl
    directive_lines-text_of (generic meta params sections) depth =
        element-text_of depth meta params (lines (suc depth) sections) _
          (rw (deeper depth) (lines-text_of sections (suc depth)))
    directive_lines-text_of (custom meta params sections) depth =
        element-text_of depth meta params (lines (suc depth) sections) _
          (rw (deeper depth) (lines-text_of sections (suc depth)))

    lines-text_of :
        (ds : Directives) (depth : ℕ)
        → layout step (depth * step) ds ≡ text_of step (lines depth ds)
    lines-text_of nil depth = refl
    lines-text_of (cons d ds) depth =
        both (directive_lines-text_of d depth) (lines-text_of ds depth)
        ∙ sym (text_of-append step (directive_lines depth d) (lines depth ds))

-- If every directive of the system has a name, the renderer adds the text of its lines to what its
-- writer holds. A directive is a tag with its name and, behind a space, the tag of its meta data; one
-- line each for the type, the id, the label and the log level that are not empty, and for every
-- parameter, sorted by name; the lines of its sections; and the closing tag. All but the two tags stand
-- one step deeper, and a value with several lines is indented as a whole.
pub render-lines :
    (step : ℕ) (out : Text) (s : System)
    → all_named (to_directives (get_directives s)) ≡ true
    → render step out s ≡ written (out ++ text_of step (lines 0 (to_directives (get_directives s))))
render-lines step out s h =
    let ds = to_directives (get_directives s) in
    let top : 0 * step ≡ 0 = omega arith in
    render-layout step out s h
    ∙ ap (λ t. written (out ++ t)) (ap (λ n. layout step n ds) (sym top) ∙ lines-text_of step ds 0)

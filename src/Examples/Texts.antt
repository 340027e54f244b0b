-- ===== src/Examples/Texts.antt =====
-- The theorems on what is rendered, on labels and on iterators, at concrete inputs.
use mathlib.Core.List.{Nodup, Nodup-nil, Nodup-cons, not-mem-nil, mem-cons}
use mathlib.Core.HLevel.{⊥_prop}
use mathlib.Core.Logic.Or
use mathlib.Core.List.Perm
use logging_operator.Base.{
  Text, codes, ◌==◌, eq_iff, ◌≡◌, ◌≢◌, refl, sym, arith, true, false, some, List, [], ◌∷◌, split_on,
}
use logging_operator.Base.Sort.{sort_strings}
use logging_operator.Base.Assoc.{Assoc, lookup}
use logging_operator.Base.Assoc.Laws.{SameMap}
use logging_operator.Directive.{meta_of, Params, Directive, generic, nil}
use logging_operator.Flow.{FlowMatch, calculate_flow_label, new_flow, match_directive}
use logging_operator.Flow.Match.{match_directive-SameMap}
use logging_operator.Flow.Label.{SameSelection, calculate_flow_label_same}
use logging_operator.Router.{
  SystemBuilder, Registered, registered, refused, panics, flow_exists, register_flow, new_router,
  new_system_builder, System, build, get_directives, router_directive,
}
use logging_operator.Router.Collision.{register_flow_collision}
use logging_operator.Render.{render, written}
use logging_operator.Render.Errors.{all_named, Stops, render-unnamed}
use logging_operator.Render.Layout.{lines, render-lines}
use logging_operator.Render.Order.{both_generic, both_custom, both_nil, both_cons, render-Same}
use logging_operator.Mirror.{new_struct_iter}
use logging_operator.Mirror.Loop.{visit_all, visit_all-struct}
use logging_operator.Examples.Data.{json, md5, empty_builder}

abbrev source : Params → Directive
source params = generic (meta_of (codes "source")) params nil

-- A system with this input
abbrev small : Directive → System
small input = build (new_system_builder input [] (new_router (codes "main") []))

abbrev named_system : System
named_system = small (source ((codes "port", codes "24240") ∷ (codes "bind", codes "::") ∷ []))

render-lines_example :
    render 2 [] named_system
    ≡ written (
        codes
          "<source>\n  bind ::\n  port 24240\n</source>\n<match **>\n  @type label_router\n  @id main\n</match>\n")
unfolding all_named get_directives codes build new_system_builder new_router lines lookup ◌==◌
    split_on sort_strings
render-lines_example = render-lines 2 [] named_system refl

abbrev unnamed_system : System
unnamed_system = small (generic (meta_of []) [] nil)

render-unnamed_example : Stops (render 2 [] unnamed_system)
unfolding all_named get_directives codes build new_system_builder new_router
render-unnamed_example = render-unnamed 2 [] unnamed_system refl

Nodup-two : (a b : Text) → a ≢ b → Nodup (a ∷ b ∷ [])
Nodup-two a b ne =
    Nodup-cons.1
      (λ m. Or.elim ⊥_prop (mem-cons.0 m) ne not-mem-nil, Nodup-cons.1 (not-mem-nil, Nodup-nil))

swapped : (a b x y : Text) → a ≢ b → SameMap ((a, x) ∷ (b, y) ∷ []) ((b, y) ∷ (a, x) ∷ [])
unfolding lookup
swapped a b x y ne = record {
  left_keys = Nodup-two a b ne;
  right_keys = Nodup-two b a (λ e. ne (sym e));
  values = λ k. ground (arith, eq_iff a k, eq_iff b k);
}

same_empty : SameMap {V = Text} [] []
same_empty = record { left_keys = Nodup-nil; right_keys = Nodup-nil; values = λ k. refl }

port_bind_test : (codes "port" == codes "bind") ≡ false
unfolding codes ◌==◌
port_bind_test = refl

port-ne-bind : codes "port" ≢ codes "bind"
port-ne-bind e = cc (port_bind_test, (eq_iff (codes "port") (codes "bind")).1 e)

abbrev other_system : System
other_system = small (source ((codes "bind", codes "::") ∷ (codes "port", codes "24240") ∷ []))

render-Same_example : render 2 [] named_system ≡ render 2 [] other_system
unfolding get_directives router_directive build new_system_builder new_router
render-Same_example = render-Same 2 [] named_system other_system (
    both_cons (both_generic (swapped (codes "port") (codes "bind") _ _ port-ne-bind) both_nil)
      (both_cons (both_custom same_empty both_nil) both_nil))

abbrev selection : List Text → Assoc Text → FlowMatch
selection namespaces labels = record {
  labels = labels;
  namespaces = namespaces;
  container_names = [];
  hosts = [];
  negate = false;
}

abbrev one_match : FlowMatch
one_match =
    selection (codes "web" ∷ codes "db" ∷ [])
      ((codes "port", codes "a") ∷ (codes "bind", codes "b") ∷ [])

abbrev other_match : FlowMatch
other_match =
    record (selection (codes "db" ∷ codes "web" ∷ [])
      ((codes "bind", codes "b") ∷ (codes "port", codes "a") ∷ [])) {
        negate = true;
        container_names = codes "main" ∷ [];
      }

same_selection : SameSelection one_match other_match
same_selection = record {
  namespaces = Perm.swap _ _ [];
  labels = swapped (codes "port") (codes "bind") _ _ port-ne-bind;
}

calculate_flow_label_same_example :
    calculate_flow_label md5 (one_match ∷ []) (codes "a") (codes "bc")
    ≡ calculate_flow_label md5 (other_match ∷ []) (codes "ab") (codes "c")
unfolding codes
calculate_flow_label_same_example =
    calculate_flow_label_same md5 (one_match ∷ []) (other_match ∷ []) (codes "a") (codes "bc")
      (codes "ab") (codes "c") (same_selection, tt) refl

abbrev builder_of : Registered → SystemBuilder
builder_of (registered b) = b
builder_of (refused e b) = b
builder_of panics = empty_builder

abbrev first_builder : SystemBuilder
first_builder = builder_of (
    register_flow json.marshal_map empty_builder
      (some (new_flow md5 (one_match ∷ []) (codes "flow:bc:a") (codes "a") (codes "bc"))))

register_flow_collision_example :
    register_flow json.marshal_map first_builder
      (some (new_flow md5 (other_match ∷ []) (codes "flow:c:ab") (codes "ab") (codes "c")))
    ≡ refused flow_exists first_builder
unfolding register_flow new_flow new_system_builder codes ◌==◌
register_flow_collision_example =
    register_flow_collision json.marshal_map md5 empty_builder first_builder (one_match ∷ [])
      (other_match ∷ []) (codes "flow:bc:a") (codes "flow:c:ab") (codes "a") (codes "bc")
      (codes "ab") (codes "c") (same_selection, tt) refl refl

visit_all-struct_example :
    visit_all 3 (new_struct_iter (some (codes "Name" ∷ codes "Tag" ∷ [])))
    ≡ some (codes "Name" ∷ codes "Tag" ∷ [])
visit_all-struct_example = visit_all-struct (codes "Name" ∷ codes "Tag" ∷ [])

abbrev one_labels : Assoc Text
one_labels = (codes "bind", codes "b") ∷ (codes "port", codes "a") ∷ []

match_directive-SameMap_example :
    match_directive one_match ≡ match_directive (record one_match { labels = one_labels })
match_directive-SameMap_example =
    match_directive-SameMap one_match one_labels
      (swapped (codes "port") (codes "bind") _ _ port-ne-bind)

-- ===== src/Directive/Copy.antt =====
-- What the `copy` directive keeps of the outputs.
use logging_operator.Base.{◌≡◌, refl, ap, List, [], ◌∷◌, map}
use logging_operator.Directive.{
  Directive, to_list, get_sections, store_section, store_sections, new_copy_directive,
}

store_sections-to_list : (ds : List Directive) → to_list (store_sections ds) ≡ map store_section ds
unfolding store_sections
store_sections-to_list [] = refl
store_sections-to_list (d ∷ ds) = ap (◌∷◌ (store_section d)) (store_sections-to_list ds)

new_copy_directive_sections :
    (ds : List Directive) → to_list (get_sections (new_copy_directive ds)) ≡ map store_section ds
unfolding new_copy_directive get_sections
new_copy_directive_sections ds = store_sections-to_list ds

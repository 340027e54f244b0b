-- ===== src/Filter/Grep.antt =====
-- grep.go of pkg/sdk/logging/model/filter.
use logging_operator.Base.{Text, codes, Option, List, [], ◌∷◌, ◌++◌, ◌⊎◌}
use logging_operator.Directive.{meta_of, Directive}
use logging_operator.StringsMap.{Json, Field, FieldFault, SecretLoader}
use logging_operator.StringsMap.Tagged.{tagged, text_value}
use logging_operator.StringsMap.Fields.{new_flat_directive}
use logging_operator.Output.{one_each, plugin_directive}
use logging_operator.Filter.{filter_meta}

pub record RegexpSection : Type 0 where
  pub key : Text
  pub pattern : Text

unfoldable pub regexp_fields : {S : Type 0} → RegexpSection → List (Field S)
unfolding tagged text_value
regexp_fields x =
    tagged "Key" "key" (text_value x.key) ∷ tagged "Pattern" "pattern" (text_value x.pattern) ∷ []

unfoldable pub regexp_to_directive :
    {S : Type 0} → Json → Option (SecretLoader S) → RegexpSection → Directive ⊎ List FieldFault
unfolding regexp_fields new_flat_directive
regexp_to_directive json loader x =
    new_flat_directive json (meta_of (codes "regexp")) (regexp_fields x) loader

pub record ExcludeSection : Type 0 where
  pub key : Text
  pub pattern : Text

unfoldable pub exclude_fields : {S : Type 0} → ExcludeSection → List (Field S)
unfolding tagged text_value
exclude_fields x =
    tagged "Key" "key" (text_value x.key) ∷ tagged "Pattern" "pattern" (text_value x.pattern) ∷ []

unfoldable pub exclude_to_directive :
    {S : Type 0} → Json → Option (SecretLoader S) → ExcludeSection → Directive ⊎ List FieldFault
unfolding exclude_fields new_flat_directive
exclude_to_directive json loader x =
    new_flat_directive json (meta_of (codes "exclude")) (exclude_fields x) loader

pub record OrSection : Type 0 where
  pub regexp : Option (List RegexpSection)
  pub exclude : Option (List ExcludeSection)

-- `OrSection.ToDirective`
unfoldable pub or_to_directive :
    {S : Type 0} → Json → Option (SecretLoader S) → OrSection → Directive ⊎ List FieldFault
unfolding plugin_directive one_each regexp_to_directive exclude_to_directive
or_to_directive json loader x = plugin_directive json loader (meta_of (codes "or")) [] (
    one_each (regexp_to_directive json loader) x.regexp
    ++ one_each (exclude_to_directive json loader) x.exclude)

pub record AndSection : Type 0 where
  pub regexp : Option (List RegexpSection)
  pub exclude : Option (List ExcludeSection)

-- `AndSection.ToDirective`
unfoldable pub and_to_directive :
    {S : Type 0} → Json → Option (SecretLoader S) → AndSection → Directive ⊎ List FieldFault
unfolding plugin_directive one_each regexp_to_directive exclude_to_directive
and_to_directive json loader x = plugin_directive json loader (meta_of (codes "and")) [] (
    one_each (regexp_to_directive json loader) x.regexp
    ++ one_each (exclude_to_directive json loader) x.exclude)

pub record GrepConfig : Type 0 where
  pub regexp : Option (List RegexpSection)
  pub exclude : Option (List ExcludeSection)
  pub or : Option (List OrSection)
  pub and : Option (List AndSection)

-- `GrepConfig.ToDirective`
unfoldable pub grep_to_directive :
    {S : Type 0} → Json → Option (SecretLoader S) → Text → GrepConfig → Directive ⊎ List FieldFault
unfolding plugin_directive one_each regexp_to_directive exclude_to_directive or_to_directive
    and_to_directive filter_meta
grep_to_directive json loader id x =
    plugin_directive json loader (filter_meta (codes "grep") id) [] (
      one_each (regexp_to_directive json loader) x.regexp
      ++ one_each (exclude_to_directive json loader) x.exclude
      ++ one_each (or_to_directive json loader) x.or
      ++ one_each (and_to_directive json loader) x.and)

-- ===== src/Filter/Record.antt =====
-- `Record` of record_transformer.go of pkg/sdk/logging/model/filter.
use logging_operator.Base.{Text, codes, List, ◌⊎◌, inl}
use logging_operator.Base.Assoc.{Assoc}
use logging_operator.Directive.{meta_of, Directive, generic, nil}
use logging_operator.StringsMap.{FieldFault}

abbrev pub Record : Type 0
Record = Assoc Text

-- `Record.ToDirective`, which has no errors
unfoldable pub record_to_directive : Record → Directive ⊎ List FieldFault
record_to_directive r = inl (generic (meta_of (codes "record")) r nil)

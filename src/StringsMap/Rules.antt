-- ===== src/StringsMap/Rules.antt =====
-- What the fields of a struct give together: the parameters, or the errors.
use logging_operator.Base.{
  Text, ◌==◌, ◌≡◌, ◌≢◌, refl, sym, ap, ◌∙◌, Option, none, some, List, [], ◌∷◌, ◌++◌, map, ◌⊎◌, inl,
  inr, append_assoc, append-nil, if◌then◌else◌,
}
use logging_operator.Base.Assoc.{Assoc, lookup, insert, lookup-insert}
use logging_operator.Directive.{PluginMeta, Directive, generic, nil}
use logging_operator.StringsMap.{
  StructToStringMapper, new_struct_to_string_mapper, Json, Field, FieldFault, SecretLoader,
}
use logging_operator.StringsMap.Fields.{
  Written, entry, nothing, fault, process_field, struct_fields, write, fill_map, strings_map,
  flat_directive_of, new_flat_directive,
}

-- The errors of the fields, in order
abbrev pub faults : List Written → List FieldFault
faults [] = []
faults (entry k v ∷ ws) = faults ws
faults (nothing ∷ ws) = faults ws
faults (fault e ∷ ws) = e ∷ faults ws

-- The value of the last field of this name, or a value from before
abbrev pub latest_or : Option Text → Text → List Written → Option Text
latest_or before key [] = before
latest_or before key (entry k v ∷ ws) = latest_or (if k == key then some v else before) key ws
latest_or before key (nothing ∷ ws) = latest_or before key ws
latest_or before key (fault e ∷ ws) = latest_or before key ws

write_all : List Written → Assoc Text × List FieldFault → Assoc Text × List FieldFault
write_all [] acc = acc
write_all (w ∷ ws) acc = write_all ws (write w acc)

write_all-faults :
    (ws : List Written) (m : Assoc Text) (errs : List FieldFault)
    → (write_all ws (m, errs)).1 ≡ errs ++ faults ws
unfolding write_all write
write_all-faults [] m errs = sym (append-nil errs)
write_all-faults (entry k v ∷ ws) m errs = write_all-faults ws (insert k v m) errs
write_all-faults (nothing ∷ ws) m errs = write_all-faults ws m errs
write_all-faults (fault e ∷ ws) m errs =
    write_all-faults ws m (errs ++ e ∷ []) ∙ append_assoc errs (e ∷ []) (faults ws)

write_all-latest :
    (key : Text) (ws : List Written) (m : Assoc Text) (errs : List FieldFault)
    → lookup key (write_all ws (m, errs)).0 ≡ latest_or (lookup key m) key ws
unfolding write_all write
write_all-latest key [] m errs = refl
write_all-latest key (entry k v ∷ ws) m errs =
    write_all-latest key ws (insert k v m) errs
    ∙ ap (λ o. latest_or o key ws) (lookup-insert k key v m)
write_all-latest key (nothing ∷ ws) m errs = write_all-latest key ws m errs
write_all-latest key (fault e ∷ ws) m errs = write_all-latest key ws m (errs ++ e ∷ [])

module _ (meta : PluginMeta) where
  -- A directive with the fields' values, or all the errors
  pub data IsFlat (ws : List Written) (result : Directive ⊎ List FieldFault) : Type 0 where
    made :
        (params : Assoc Text)
        → result ≡ inl (generic meta params nil)
        → faults ws ≡ []
        → ((key : Text) → lookup key params ≡ latest_or none key ws)
        → IsFlat ws result
    refused_all : result ≡ inr (faults ws) → faults ws ≢ [] → IsFlat ws result

  from_pair :
      (ws : List Written) (params : Assoc Text) (errs : List FieldFault)
      → errs ≡ faults ws
      → ((key : Text) → lookup key params ≡ latest_or none key ws)
      → IsFlat ws (flat_directive_of meta (params, errs))
  unfolding flat_directive_of
  from_pair ws params [] e h = made params refl (sym e) h
  from_pair ws params (x ∷ errs) e h = refused_all (ap inr e) (λ n. cc (e, n))

module _ {S : Type 0} (json : Json) where
  fill_map-eq :
      (s : StructToStringMapper S) (fs : List (Field S)) (acc : Assoc Text × List FieldFault)
      → fill_map s json fs acc ≡ write_all (map (process_field s json) fs) acc
  unfolding fill_map write_all
  fill_map-eq s [] acc = refl
  fill_map-eq s (f ∷ fs) acc = fill_map-eq s fs (write (process_field s json f) acc)

  -- What the fields of a struct give, one by one; a field that is not exported or has the tag "-" is
  -- left out.
  abbrev pub written_by : List (Field S) → Option (SecretLoader S) → List Written
  written_by fields loader =
      let s = new_struct_to_string_mapper loader in
      map (process_field s json) (struct_fields s fields)

  -- `NewFlatDirective` makes a directive if and only if no field has an error; each parameter has
  -- then the value of the last field of its name, and there are no others. Else it returns the
  -- errors of all fields, in the order of the fields.
  pub new_flat_directive-IsFlat :
      (meta : PluginMeta) (fields : List (Field S)) (loader : Option (SecretLoader S))
      → IsFlat meta (written_by fields loader) (new_flat_directive json meta fields loader)
  unfolding new_flat_directive strings_map
  new_flat_directive-IsFlat meta fields loader =
      let ws = written_by fields loader in
      rw
        (fill_map-eq (new_struct_to_string_mapper loader)
          (struct_fields (new_struct_to_string_mapper loader) fields) ([], []))
        (from_pair meta ws (write_all ws ([], [])).0 (write_all ws ([], [])).1
          (write_all-faults ws [] []) (λ key. write_all-latest key ws [] []))

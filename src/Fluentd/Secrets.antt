-- ===== src/Fluentd/Secrets.antt =====
-- outputsecret.go: the secret with what the outputs read, and the marks of the watched secrets.
use logging_operator.Base.{Text, codes, is_empty, List, [], ◌∷◌, ◌++◌, ◌⊎◌, inl, inr, if◌then◌else◌}
use logging_operator.Base.Assoc.{Assoc, insert}

-- An entry of `secret.MountSecrets`
pub record MountSecret : Type 0 where
  pub name : Text
  pub namespace : Text
  pub mapped_key : Text
  pub value : Text

-- The data of `outputSecret`
unfoldable pub output_secret_data : List MountSecret → Assoc Text → Assoc Text
unfolding insert
output_secret_data [] m = m
output_secret_data (secret ∷ secrets) m =
    output_secret_data secrets (insert secret.mapped_key secret.value m)

-- The reference in an annotation: the empty one is spelled `default`.
unfoldable pub annotation_ref : Text → Text
annotation_ref logging_ref = if is_empty logging_ref then codes "default" else logging_ref

unfoldable pub annotation_key : Text → Text
unfolding annotation_ref
annotation_key logging_ref = codes "logging.banzaicloud.io/" ++ annotation_ref logging_ref

-- A secret's annotations with the mark
unfoldable pub mark_secret : Text → Assoc Text → Assoc Text
unfolding insert annotation_key
mark_secret logging_ref annotations =
    insert (annotation_key logging_ref) (codes "watched") annotations

-- A marked secret: its name, its namespace and its annotations
pub record Marked : Type 0 where
  pub name : Text
  pub namespace : Text
  pub annotations : Assoc Text

-- `markSecrets`: the first secret that cannot be read ends it.
unfoldable pub mark_secrets :
    (Text → Text → Assoc Text ⊎ Text) → Text → List MountSecret → List Marked ⊎ Text
unfolding mark_secret
mark_secrets get logging_ref [] = inl []
mark_secrets get logging_ref (secret ∷ secrets) = elim (get secret.name secret.namespace) [
  | inr e ↦ inr e
  | inl annotations ↦ elim (mark_secrets get logging_ref secrets) [
    | inr e ↦ inr e
    | inl rest ↦ inl (
        (record {
          name = secret.name;
          namespace = secret.namespace;
          annotations = mark_secret logging_ref annotations;
        })
        ∷ rest)
  ]
]

-- ===== src/Fluentd/Cleanup.antt =====
-- appconfigmap.go: the cleanup of earlier checks; and the config check of `Reconcile` in fluentd.go.
use logging_operator.Base.{
  Text, codes, ◌==◌, Bool, true, false, Option, none, some, List, [], ◌∷◌, if◌then◌else◌,
}
use logging_operator.Base.Assoc.{Assoc, keys, insert, delete}
use logging_operator.Fluentd.Trace.{
  CheckObject, check_secret, check_output_secret, check_pod, deleted, patched, requeue,
  requeue_after_minute, failed, Trace, give, stop, ask, ◌>>=◌, of_error, of_pointer,
}
use logging_operator.Fluentd.ConfigCheck.{
  CheckServer, Deleted, gone, not_there, delete_failed, ConfigCheckResult, config_check,
}

-- The error that is left of a deletion
unfoldable pub delete_error : Deleted → Option Text
delete_error gone = none
delete_error not_there = none
delete_error (delete_failed e) = some e

unfoldable pub add_removed : Text → Option Text → List Text × List Text → List Text × List Text
add_removed hash none (removed, errs) = (hash ∷ removed, errs)
add_removed hash (some e) (removed, errs) = (removed, e ∷ errs)

unfoldable pub delete_all : List Text → Assoc Bool → Assoc Bool
unfolding delete
delete_all [] m = m
delete_all (hash ∷ hashes) m = delete_all hashes (delete hash m)

module _ {R : Type 0} where
  -- An error ends the round of a hash; the loop goes on.
  unfoldable pub unless_error : Option Text → Trace R (Option Text) → Trace R (Option Text)
  unless_error none next = next
  unless_error (some e) next = give (some e)

module _ {R : Type 0} (server : CheckServer) where
  -- The deletion of an object, and what follows it
  unfoldable pub delete_then : CheckObject → Trace R (Option Text) → Trace R (Option Text)
  delete_then o next = do _ ← ask (deleted o); unless_error (delete_error (server.delete o)) next

  -- The round of a hash: none if its objects are gone, or an error
  unfoldable pub cleanup_hash : Text → Trace R (Option Text)
  unfolding delete_error of_pointer
  cleanup_hash hash = unless_error server.config_secret_error (
      delete_then (check_secret hash) (do
        _ ← of_pointer server.secrets
        delete_then (check_output_secret hash) (delete_then (check_pod hash) (give none))))

  -- `configCheckCleanup` over the hashes of the results: those removed, and the errors
  unfoldable pub config_check_cleanup : Text → List Text → Trace R (List Text × List Text)
  unfolding cleanup_hash add_removed
  config_check_cleanup current [] = give ([], [])
  config_check_cleanup current (hash ∷ hashes) =
      let rest = config_check_cleanup current hashes in
      if hash == current
      then rest
      else (do error ← cleanup_hash hash; others ← rest; give (add_removed hash error others))

  -- The patch of the status, which ends the run
  unfoldable pub patch_status : Assoc Bool → Trace R (Unit {0})
  unfolding of_error
  patch_status results = do _ ← ask (patched results); _ ← of_error server.patch_error; stop requeue

  -- What follows the cleanup: its errors are only logged.
  unfoldable pub after_cleanup : Assoc Bool → List Text × List Text → Trace R (Unit {0})
  unfolding patch_status delete_all
  after_cleanup results (removed, (e ∷ errs)) = give tt
  after_cleanup results ([], []) = give tt
  after_cleanup results ((hash ∷ removed), []) = patch_status (delete_all (hash ∷ removed) results)

  unfoldable pub after_check : Text → Assoc Bool → ConfigCheckResult → Trace R (Unit {0})
  unfolding patch_status insert
  after_check hash results r =
      if r.ready then patch_status (insert hash r.valid results) else stop requeue_after_minute

  -- The config check of `Reconcile`, by the earlier result for the hash
  unfoldable pub check_config : Text → Assoc Bool → Option Bool → Trace R (Unit {0})
  unfolding config_check after_check config_check_cleanup after_cleanup
  check_config hash results (some false) = stop (failed (codes "current config is invalid"))
  check_config hash results (some true) = do
    outcome ← config_check_cleanup hash (keys results)
    after_cleanup results outcome
  check_config hash results none = do r ← config_check server hash; after_check hash results r

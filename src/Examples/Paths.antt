-- ===== src/Examples/Paths.antt =====
-- The theorems on paths, annotations, side cars, statuses and selections, at concrete inputs.
use mathlib.Core.List.{mem-cons_self}
use mathlib.Core.List.Perm
use logging_operator.Base.{inr, ℕ, Text, codes, ◌≡◌, false, some, List, [], ◌∷◌, inl}
use logging_operator.Base.Lists.{All, length}
use logging_operator.VolumePath.{uniq, top_level_path, convert_file_path, escape_dns1123}
use logging_operator.VolumePath.Uniq.{IsUniqOf, uniq-IsUniqOf}
use logging_operator.VolumePath.TopLevel.{IsTopLevel, top_level_path-IsTopLevel}
use logging_operator.VolumePath.Escape.{IsDns, convert_file_path-All, escape_dns1123_idem}
use logging_operator.Annotation.{new_handler, add_tailer_annotation, file_paths_for_container}
use logging_operator.Annotation.Paths.{IsPath, annotated-All}
use logging_operator.PodHandler.{Additions, side_cars_for_container}
use logging_operator.PodHandler.Mounts.{IsMounted, side_cars-All}
use logging_operator.Resources.{Output}
use logging_operator.Repository.Owned.{IsOwned, logging_resources_for-IsOwned}
use logging_operator.Repository.{Reader, logging_resources_for, Keyed, keyed_output, select_items}
use logging_operator.Repository.Select.{
  IsSelection, DistinctNames, select_items-IsSelection, select_items-eq_of_perm,
}
use logging_operator.Status.{Statuses, reconcile_flow, reconcile_cluster_flow}
use logging_operator.Examples.Data.{logging, cluster_flow, secrets, output, flow, cluster_output}
use logging_operator.Status.Active.{
  expected_cluster_status, reconcile_cluster_flow-status, expected_status, reconcile_flow-status,
}

abbrev lower : ℕ → ℕ
lower c = c

abbrev log_dirs : List Text
log_dirs = codes "/var/log" ∷ codes "/var/log/nginx" ∷ codes "/var/log" ∷ []

uniq-IsUniqOf_example : IsUniqOf log_dirs (uniq (some log_dirs))
uniq-IsUniqOf_example = uniq-IsUniqOf log_dirs

top_level_path-IsTopLevel_example :
    IsTopLevel (codes "/var/log") log_dirs (top_level_path log_dirs (codes "/var/log"))
top_level_path-IsTopLevel_example =
    top_level_path-IsTopLevel (codes "/var/log") log_dirs mem-cons_self

convert_file_path-All_example : All IsDns (convert_file_path lower (codes "/var/log/App_1.log"))
convert_file_path-All_example = convert_file_path-All lower (codes "/var/log/App_1.log")

escape_dns1123_idem_example :
    (length (escape_dns1123 lower (codes "App_1")) ≡ length (codes "App_1"))
    × (escape_dns1123 lower (escape_dns1123 lower (codes "App_1"))
        ≡ escape_dns1123 lower (codes "App_1"))
escape_dns1123_idem_example = escape_dns1123_idem lower (codes "App_1")

abbrev names : List Text
names = codes "nginx" ∷ codes "db" ∷ []

annotated-All_example : All IsPath (
    file_paths_for_container
      (add_tailer_annotation (new_handler names) (codes "/var/log/a.log, db:/var/log/b.log"))
      (codes "db"))
annotated-All_example = annotated-All names (codes "/var/log/a.log, db:/var/log/b.log") (codes "db")

abbrev path_args : Text → List Text
path_args p = codes "-p" ∷ p ∷ []

abbrev tailed : List Text
tailed = codes "/var/log/a.log" ∷ codes "/data/b.log" ∷ []

abbrev added : Additions
added = side_cars_for_container lower (codes "fluent-bit") path_args (codes "db") tailed

side_cars-All_example : All (IsMounted added.volumes added.volume_mounts) added.side_cars
side_cars-All_example = side_cars-All lower (codes "fluent-bit") path_args (codes "db") tailed

abbrev other_output : Output Text
other_output = record output { name = codes "archive"; logging_ref = codes "other" }

select_items-IsSelection_example :
    IsSelection keyed_output []
      (output ∷ other_output ∷ [])
      (select_items keyed_output [] (inl (output ∷ other_output ∷ [])))
select_items-IsSelection_example =
    select_items-IsSelection keyed_output [] (output ∷ other_output ∷ [])

-- Resources that are only a namespaced name
abbrev pairs : Keyed (Text × Text)
pairs = record { namespace = λ p. p.0; name = λ p. p.1; logging_ref = λ p. [] }

abbrev two_pairs : List (Text × Text)
two_pairs = (codes "web", codes "out") ∷ (codes "db", codes "out") ∷ []

two_pairs-DistinctNames : DistinctNames pairs two_pairs
two_pairs-DistinctNames (n, m) (n', m') ma mb e e' = cc (e, e')

select_items-eq_of_perm_example :
    select_items pairs [] (inl two_pairs)
    ≡ select_items pairs [] (inl ((codes "db", codes "out") ∷ (codes "web", codes "out") ∷ []))
select_items-eq_of_perm_example =
    select_items-eq_of_perm pairs [] two_pairs
      ((codes "db", codes "out") ∷ (codes "web", codes "out") ∷ []) two_pairs-DistinctNames
      (Perm.swap _ _ [])

abbrev statuses : Statuses Text
statuses = record {
  cluster_outputs =
      (cluster_output, record { active = false; problems = []; problems_count = 0 }) ∷ [];
  outputs = (output, record { active = false; problems = []; problems_count = 0 }) ∷ [];
  cluster_flows = [];
  flows = [];
}

reconcile_flow-status_example :
    (reconcile_flow secrets flow statuses).flows
    ≡ (flow, expected_status flow statuses.cluster_outputs statuses.outputs) ∷ []
reconcile_flow-status_example = reconcile_flow-status secrets flow statuses

reconcile_cluster_flow-status_example :
    (reconcile_cluster_flow secrets cluster_flow statuses).cluster_flows
    ≡ (cluster_flow, expected_cluster_status cluster_flow statuses.cluster_outputs) ∷ []
reconcile_cluster_flow-status_example = reconcile_cluster_flow-status secrets cluster_flow statuses

-- The outputs of the web namespace, in the only one that there is
abbrev client : Reader Text
client = record {
  list_cluster_flows = λ ns. inr (codes "forbidden");
  list_cluster_outputs = λ ns. inl (cluster_output ∷ []);
  list_flows = λ ns. inl (flow ∷ []);
  list_outputs = λ ns. inl (output ∷ other_output ∷ []);
  list_namespaces = inl (codes "web" ∷ []);
}

logging_resources_for-IsOwned_example : IsOwned [] (logging_resources_for client logging).0
logging_resources_for-IsOwned_example = logging_resources_for-IsOwned client logging

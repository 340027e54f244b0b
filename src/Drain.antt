-- ===== src/Drain.antt =====
-- pkg/resources/fluentd/fluentd.go, drainjob.go, placeholderpod.go: what the drain of the buffers
-- reads and asks for.
pub mod Names
pub mod Claim
pub mod Reconcile
pub mod Uses
pub mod Found
pub mod Reasons
pub mod Round
pub mod Plan
pub mod Server
pub mod Rounds
pub mod InUse
pub mod Panics
use logging_operator.Base.{
  ℕ, Text, codes, ◌==◌, nat_eq, Bool, true, false, ◌&&◌, Option, none, some, List, [], ◌∷◌, ◌++◌,
  ltb, if◌then◌else◌,
}
use logging_operator.Base.Int.{ℤ}
use logging_operator.Base.Assoc.{Assoc, lookup}

-- A pod's volume: the name of its claim, if it has one
pub record PodVolume : Type 0 where
  pub name : Text
  pub claim : Option Text

pub record PersistentVolumeClaim : Type 0 where
  pub name : Text
  pub labels : Assoc Text

-- A drainer job: the volumes of its pods, and the status that is read
pub record Job : Type 0 where
  pub name : Text
  pub volumes : List PodVolume
  pub has_completion_time : Bool
  pub succeeded : ℤ
  pub failed : ℤ

unfoldable pub is_positive : ℤ → Bool
is_positive (ℤ.pos n) = ltb 0 n
is_positive (ℤ.negsuc n) = false

unfoldable pub job_successfully_completed : Job → Bool
unfolding is_positive
job_successfully_completed job = job.has_completion_time && is_positive job.succeeded

unfoldable pub is_text : Text → Option Text → Bool
is_text t none = false
is_text t (some u) = u == t

unfoldable pub marked_as_drained : PersistentVolumeClaim → Bool
unfolding lookup is_text
marked_as_drained pvc =
    is_text (codes "drained") (lookup (codes "logging.banzaicloud.io/drain-status") pvc.labels)

unfoldable pub find_volume_by_name : List PodVolume → Text → Option PodVolume
find_volume_by_name [] name = none
find_volume_by_name (vol ∷ vols) name =
    if vol.name == name then some vol else find_volume_by_name vols name

-- The configuration that is read. `claim_name` is none where the buffer's claim is a nil pointer;
-- `generated_volumes` are those of `generateVolume`.
pub record DrainSpec : Type 0 where
  pub logging_name : Text
  pub disable_pvc : Bool
  pub drain_enabled : Bool
  pub claim_name : Option Text
  pub generated_volumes : List PodVolume

-- `QualifiedName` of a logging's name
unfoldable pub qualified_name : Text → Text → Text
qualified_name logging name = logging ++ (codes "-" ++ name)

-- `name[strings.LastIndex(name, "-"):]`, which panics where there is no dash
unfoldable pub from_last_dash : Text → Option Text
from_last_dash [] = none
from_last_dash (c ∷ s) = elim (from_last_dash s) [
  | some t ↦ some t
  | none ↦ if nat_eq c b'-' then some (c ∷ s) else none
]

-- The name of `placeholderPodFor`
unfoldable pub placeholder_name : DrainSpec → PersistentVolumeClaim → Option Text
unfolding qualified_name from_last_dash
placeholder_name spec pvc = elim (from_last_dash pvc.name) [
  | some ordinal ↦ some (qualified_name spec.logging_name (codes "fluentd" ++ ordinal))
  | none ↦ none
]

-- The name of `drainerJobFor`
unfoldable pub drainer_name : DrainSpec → PersistentVolumeClaim → Option Text
unfolding qualified_name from_last_dash
drainer_name spec pvc = elim (from_last_dash pvc.name) [
  | some ordinal ↦
      some (qualified_name spec.logging_name (codes "fluentd" ++ (ordinal ++ codes "-drainer")))
  | none ↦ none
]

pub data Propagation : Type 0 where
  background : Propagation
  foreground : Propagation

-- What is asked of the cluster for a claim: the two patches of its label, the deletion of a job, the
-- presence or absence of the placeholder pod, and the presence of the drainer job.
pub data Request : Type 0 where
  unmark : PersistentVolumeClaim → Request
  mark : PersistentVolumeClaim → Request
  delete_job : Propagation → Job → PersistentVolumeClaim → Request
  remove_placeholder : Text → PersistentVolumeClaim → Request
  ensure_placeholder : Text → PersistentVolumeClaim → Request
  create_job : Job → PersistentVolumeClaim → Request

pub data Task : Type 0 where
  unmarking : Task
  marking : Task
  deleting_completed : Task
  deleting_unneeded : Task
  removing_placeholder : Task
  ensuring_placeholder : Task
  assembling : Task
  creating : Task

pub data DrainError : Type 0 where
  task_failed : Task → Text → Text → DrainError
  draining_failed : Text → ℤ → DrainError

-- ===== src/PodHandler/Handle.antt =====
-- `Handle` of pkg/webhook/podhandler/podhandler.go: what becomes of an admitted pod.
use logging_operator.Base.{
  ℕ, zero, suc, Text, Option, none, some, List, [], ◌∷◌, ◌++◌, ◌⊎◌, inl, inr,
}
use logging_operator.Base.Assoc.{Assoc, lookup}
use logging_operator.Annotation.{new_handler, add_tailer_annotation, file_paths_for_container}
use logging_operator.PodHandler.{VolumeMount, Volume, Container, Additions, side_cars_for_container}

pub record Pod : Type 0 where
  pub annotations : Assoc Text
  pub containers : List Container
  pub volumes : List Volume

-- The answer to the admission request: an error, the pod as it is, or another pod
pub data Response : Type 0 where
  errored : Text → Response
  allowed : Response
  patched : Pod → Response

-- `ContainerNames`
unfoldable pub container_names : List Container → List Text
container_names [] = []
container_names (c ∷ cs) = c.name ∷ container_names cs

abbrev pub with_mounts : Container → List VolumeMount → Container
with_mounts c mounts = record c { volume_mounts = c.volume_mounts ++ mounts }

-- The mounts are appended to the container of the index.
unfoldable pub append_mounts : ℕ → List VolumeMount → List Container → List Container
append_mounts i mounts [] = []
append_mounts zero mounts (c ∷ cs) = with_mounts c mounts ∷ cs
append_mounts (suc i) mounts (c ∷ cs) = c ∷ append_mounts i mounts cs

-- `additions` is what `sideCarsForContainer` gives for a container's name.
module _ (additions : Text → Additions) where
  -- The loop, at an index and the containers from it on; what it appends is not visited.
  unfoldable pub add_side_cars : ℕ → List Container → Pod → Pod
  unfolding append_mounts
  add_side_cars i [] pod = pod
  add_side_cars i (c ∷ cs) pod =
      let added = additions c.name in
      add_side_cars (suc i) cs (record pod {
        containers = append_mounts i added.volume_mounts (pod.containers ++ added.side_cars);
        volumes = pod.volumes ++ added.volumes;
      })

module _ (lower : ℕ → ℕ) (image : Text) (path_args : Text → List Text) where
  -- What is added for a container, by the annotation of the pod
  unfoldable pub additions_for : Pod → Text → Text → Additions
  unfolding container_names
  additions_for pod annotation name =
      let handler =
        add_tailer_annotation (new_handler (container_names pod.containers)) annotation in
      side_cars_for_container lower image path_args name (file_paths_for_container handler name)

  unfoldable pub with_annotation : (Pod → Option Text) → Pod → Option Text → Response
  unfolding add_side_cars additions_for
  with_annotation marshal_error pod none = allowed
  with_annotation marshal_error pod (some annotation) =
      let result = add_side_cars (additions_for pod annotation) 0 pod.containers pod in
      elim (marshal_error result) [ none ↦ patched result | some e ↦ errored e ]

  -- `Handle`, for a decoded pod or the error of its decoding, and the key of the annotation
  unfoldable pub handle : (Pod → Option Text) → Text → Pod ⊎ Text → Response
  unfolding with_annotation lookup
  handle marshal_error key (inr e) = errored e
  handle marshal_error key (inl pod) =
      with_annotation marshal_error pod (lookup key pod.annotations)

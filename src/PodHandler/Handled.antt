-- ===== src/PodHandler/Handled.antt =====
-- What the webhook makes of a pod.
use logging_operator.Base.{
  ℕ, suc, Text, ◌≡◌, refl, sym, ap, ◌∙◌, Option, none, some, List, [], ◌∷◌, ◌++◌, map, append_assoc,
  append-nil, inl, arith,
}
use logging_operator.Base.Lists.{length, length-append}
use logging_operator.Base.Assoc.{lookup}
use logging_operator.PodHandler.{VolumeMount, Volume, Container, Additions}
use logging_operator.PodHandler.Handle.{
  Pod, patched, with_mounts, append_mounts, add_side_cars, additions_for, with_annotation, handle,
}

-- The parts of all, one after the other
abbrev pub concat_map : {A B : Type 0} → (A → List B) → List A → List B
concat_map f [] = []
concat_map f (x ∷ xs) = f x ++ concat_map f xs

append_mounts-length :
    (pre : List Container) (c : Container) (post : List Container) (mounts : List VolumeMount)
    → append_mounts (length pre) mounts (pre ++ c ∷ post) ≡ pre ++ with_mounts c mounts ∷ post
unfolding append_mounts
append_mounts-length [] c post mounts = refl
append_mounts-length (x ∷ pre) c post mounts = ap (◌∷◌ x) (append_mounts-length pre c post mounts)

-- Every container keeps its place and gets its mounts, the side cars stand behind all, and the volumes
-- behind those of the pod.
pub record IsHandled (additions : Text → Additions) (pod result : Pod) : Type 0 where
  pub containers :
      result.containers
      ≡ map (λ (c : Container). with_mounts c (additions c.name).volume_mounts) pod.containers
        ++ concat_map (λ (c : Container). (additions c.name).side_cars) pod.containers
  pub volumes :
      result.volumes
      ≡ pod.volumes ++ concat_map (λ (c : Container). (additions c.name).volumes) pod.containers
  pub annotations : result.annotations ≡ pod.annotations

module _ (additions : Text → Additions) where
  abbrev mounted : Container → Container
  mounted c = with_mounts c (additions c.name).volume_mounts

  abbrev cars : Container → List Container
  cars c = (additions c.name).side_cars

  abbrev vols : Container → List Volume
  vols c = (additions c.name).volumes

  appended :
      (i : ℕ) (pre : List Container) (c : Container) (rest post all : List Container)
      → i ≡ length pre
      → all ≡ pre ++ c ∷ (rest ++ post)
      → append_mounts i (additions c.name).volume_mounts (all ++ cars c)
        ≡ (pre ++ mounted c ∷ []) ++ (rest ++ (post ++ cars c))
  appended i pre c rest post all e h =
      rw (e, h)
        (ap (append_mounts (length pre) (additions c.name).volume_mounts) (simp append_assoc refl)
          ∙ (append_mounts-length pre c (rest ++ (post ++ cars c)) (additions c.name).volume_mounts
              ∙ simp append_assoc refl))

  loop_containers :
      (i : ℕ) (pre rest post : List Container) (pod : Pod)
      → i ≡ length pre
      → pod.containers ≡ pre ++ (rest ++ post)
      → (add_side_cars additions i rest pod).containers
        ≡ pre ++ (map mounted rest ++ (post ++ concat_map cars rest))
  unfolding add_side_cars
  loop_containers i pre [] post pod k e = e ∙ ap (◌++◌ pre) (sym (append-nil post))
  loop_containers i pre (c ∷ rest) post pod k e =
      loop_containers (suc i) (pre ++ mounted c ∷ []) rest (post ++ cars c) _
        (omega (arith, k, length-append pre (mounted c ∷ [])))
        (appended i pre c rest post pod.containers k e)
      ∙ simp append_assoc refl

  loop_volumes :
      (i : ℕ) (rest : List Container) (pod : Pod)
      → (add_side_cars additions i rest pod).volumes ≡ pod.volumes ++ concat_map vols rest
  unfolding add_side_cars
  loop_volumes i [] pod = sym (append-nil pod.volumes)
  loop_volumes i (c ∷ rest) pod =
      loop_volumes (suc i) rest _ ∙ append_assoc pod.volumes (vols c) (concat_map vols rest)

  loop_annotations :
      (i : ℕ) (rest : List Container) (pod : Pod)
      → (add_side_cars additions i rest pod).annotations ≡ pod.annotations
  unfolding add_side_cars
  loop_annotations i [] pod = refl
  loop_annotations i (c ∷ rest) pod = loop_annotations (suc i) rest _

  -- The loop over the containers of a pod
  add_side_cars-IsHandled :
      (pod : Pod) → IsHandled additions pod (add_side_cars additions 0 pod.containers pod)
  add_side_cars-IsHandled pod = record {
    containers = loop_containers 0 [] pod.containers [] pod refl (sym (append-nil pod.containers));
    volumes = loop_volumes 0 pod.containers pod;
    annotations = loop_annotations 0 pod.containers pod;
  }

module _ (lower : ℕ → ℕ) (image : Text) (path_args : Text → List Text) where
  -- A pod that is decoded and has the annotation, and whose result can be encoded, is answered by a pod
  -- in which every container of the former keeps its place and its mounts, with those of its side
  -- cars behind; the side cars stand behind all containers, and their volumes behind those of the
  -- pod, each time in the order of the containers.
  pub handle-IsHandled :
      (marshal_error : Pod → Option Text) (key annotation : Text) (pod : Pod)
      → lookup key pod.annotations ≡ some annotation
      → ((p : Pod) → marshal_error p ≡ none)
      → (result : Pod) × (handle lower image path_args marshal_error key (inl pod) ≡ patched result)
        × IsHandled (additions_for lower image path_args pod annotation) pod result
  unfolding handle with_annotation
  handle-IsHandled marshal_error key annotation pod found encodes =
      let additions = additions_for lower image path_args pod annotation in
      (
        add_side_cars additions 0 pod.containers pod,
        rw (handle, found) (rw (with_annotation, encodes) refl),
        add_side_cars-IsHandled additions pod,
      )

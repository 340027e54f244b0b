-- ===== src/PodHandler/Mounts.antt =====
-- The side cars mount what the pod provides.
use mathlib.Core.List.{Mem, mem-cons_self, mem-cons_of_mem, mem-map_of_mem}
use logging_operator.Base.{
  ℕ, Text, has_prefix, ◌≡◌, refl, sym, ap, subst, ◌∙◌, Option, none, some, List, [], ◌∷◌, map,
  Bool-cases, inl, inr,
}
use logging_operator.Base.Lists.{All}
use logging_operator.VolumePath.{apply, at, prepend, first, convert_file_path}
use logging_operator.VolumePath.Apply.{collect, apply-at}
use logging_operator.PodHandler.{
  VolumeMount, Volume, Container, new_volume, new_volume_mount, container_of, prefix_of, dir,
  containerized_path, containerized_volume_name, volumes_of, volume_path_for, side_car, containers,
  mounts_of, strings_of, file_list, dir_list, side_cars_for_container,
}

some_injective : {A : Type 0} {a b : A} → some a ≡ some b → a ≡ b
some_injective e = cc

-- The side car has one mount. It is one of the mounts that the tailed container gets, and there
-- is a volume of its name.
pub record IsMounted (volumes : List Volume) (mounts : List VolumeMount) (c : Container)
    : Type 0 where
  mount : VolumeMount
  pub only : c.volume_mounts ≡ mount ∷ []
  shared : Mem mount mounts
  volume : Mem (new_volume mount.name) volumes

module _ (lower : ℕ → ℕ) (image : Text) (path_args : Text → List Text) where
  prefix-mem :
      (file : Text) (l : List Text) (path : Text)
      → first (some (collect (prefix_of lower image path_args file) l)) ≡ some path
      → Mem path l
  unfolding collect prefix_of first prepend
  prefix-mem file [] path h = absurd (cc (h))
  prefix-mem file (d ∷ l) path h = elim (Bool-cases (has_prefix (dir file) d)) [
    | inl p ↦ subst (λ t. Mem t (d ∷ l)) (some_injective (rw p at h)) mem-cons_self
    | inr p ↦ mem-cons_of_mem d (prefix-mem file l path (rw p at h))
  ]

  volume_path-eq :
      (file : Text) (dirs : List Text)
      → volume_path_for lower image path_args file dirs
        ≡ first (some (collect (prefix_of lower image path_args file) dirs))
  unfolding volume_path_for
  volume_path-eq file dirs = ap first (apply-at (prefix_of lower image path_args file) dirs)

  volume_path-mem :
      (file : Text) (dirs : List Text) (path : Text)
      → volume_path_for lower image path_args file dirs ≡ some path
      → Mem path dirs
  volume_path-mem file dirs path h = prefix-mem file dirs path (sym (volume_path-eq file dirs) ∙ h)

  abbrev mount_for : Text → Text → VolumeMount
  mount_for name d = new_volume_mount d (containerized_volume_name lower image path_args name d)

  mounts_of-map :
      (name : Text) (ds : List Text)
      → mounts_of lower image path_args name ds ≡ map (mount_for name) ds
  unfolding mounts_of
  mounts_of-map name [] = refl
  mounts_of-map name (d ∷ ds) = ap (◌∷◌ (mount_for name d)) (mounts_of-map name ds)

  mounts_of-mem :
      (name d : Text) (ds : List Text)
      → Mem d ds
      → Mem (mount_for name d) (mounts_of lower image path_args name ds)
  mounts_of-mem name d ds m = rw (mounts_of-map name ds) (mem-map_of_mem (mount_for name) m)

  abbrev pod_path : Text → Text → Text
  pod_path name d = containerized_path lower image path_args name d

  collect-some : (f : Text → Text) (l : List Text) → collect (λ t. some (f t)) l ≡ map f l
  unfolding collect prepend
  collect-some f [] = refl
  collect-some f (t ∷ l) = ap (◌∷◌ (f t)) (collect-some f l)

  abbrev volume_for : Text → Volume
  volume_for v = new_volume (convert_file_path lower v)

  volumes_of-map : (vs : List Text) → volumes_of lower image path_args vs ≡ map volume_for vs
  unfolding volumes_of
  volumes_of-map [] = refl
  volumes_of-map (v ∷ vs) = ap (◌∷◌ (volume_for v)) (volumes_of-map vs)

  -- The volumes of the directories of a container
  abbrev pod_volumes : Text → List Text → List Volume
  pod_volumes name ds =
      volumes_of lower image path_args (
        strings_of lower image path_args
          (apply (some (at (λ p. some (pod_path name p)))) (some ds)))

  pod_volumes-eq :
      (name : Text) (ds : List Text) → pod_volumes name ds ≡ map volume_for (map (pod_path name) ds)
  unfolding strings_of
  pod_volumes-eq name ds =
      ap (λ o. volumes_of lower image path_args (strings_of lower image path_args o))
        (apply-at (λ p. some (pod_path name p)) ds)
      ∙ (volumes_of-map _ ∙ ap (map volume_for) (collect-some (pod_path name) ds))

  pod_volumes-mem :
      (name d : Text) (ds : List Text)
      → Mem d ds
      → Mem (new_volume (mount_for name d).name) (pod_volumes name ds)
  unfolding new_volume_mount containerized_volume_name
  pod_volumes-mem name d ds m =
      rw (pod_volumes-eq name ds) (mem-map_of_mem volume_for (mem-map_of_mem (pod_path name) m))

  side_car-IsMounted :
      (name file path : Text) (ds : List Text)
      → Mem path ds
      → IsMounted
          (pod_volumes name ds)
          (mounts_of lower image path_args name ds)
          (side_car lower image path_args name file path)
  unfolding side_car container_of
  side_car-IsMounted name file path ds m = record {
    mount = mount_for name path;
    only = refl;
    shared = mounts_of-mem name path ds m;
    volume = pod_volumes-mem name path ds m;
  }

  containers-from :
      (name : Text) (ds files : List Text) (f : Text) (o : Option Text)
      → volume_path_for lower image path_args f ds ≡ o
      → All
          (IsMounted (pod_volumes name ds) (mounts_of lower image path_args name ds))
          (containers lower image path_args files ds name)
      → All (IsMounted (pod_volumes name ds) (mounts_of lower image path_args name ds)) (elim o [
        | none ↦ []
        | some path ↦
            side_car lower image path_args name f path
            ∷ containers lower image path_args files ds name
      ])
  containers-from name ds files f none e h = tt
  containers-from name ds files f (some path) e h =
      (side_car-IsMounted name f path ds (volume_path-mem f ds path e), h)

  containers-All :
      (name : Text) (ds files : List Text)
      → All
          (IsMounted (pod_volumes name ds) (mounts_of lower image path_args name ds))
          (containers lower image path_args files ds name)
  unfolding containers
  containers-All name ds [] = tt
  containers-All name ds (f ∷ fs) = containers-from name ds fs f _ refl (containers-All name ds fs)

  -- Each side car that is added to a pod has one mount, which is also a mount of the container whose
  -- files it tails, and a volume of the mount's name is added to the pod.
  pub side_cars-All :
      (name : Text) (files : List Text)
      → let added = side_cars_for_container lower image path_args name files in
        All (IsMounted added.volumes added.volume_mounts) added.side_cars
  unfolding side_cars_for_container
  side_cars-All name files =
      let tailed = file_list lower image path_args files in
      containers-All name (dir_list lower image path_args tailed) tailed

-- ===== src/PodHandler.antt =====
-- pkg/webhook/podhandler and the builders of pkg/resources/kubetool: the side cars of a pod whose
-- annotation names files to tail. The arguments that the version of fluent-bit needs are a parameter:
-- they compare versions by a third-party package.
pub mod Mounts
pub mod Handle
pub mod Handled
use logging_operator.Base.{
  ℕ, Text, codes, ◌==◌, is_empty, has_prefix, join, split_on, Bool, true, false, not, ◌&&◌, Option,
  none, some, List, [], ◌∷◌, ◌++◌, map, reverse, if◌then◌else◌, leb,
}
use logging_operator.Base.Assoc.{Assoc, lookup}
use logging_operator.VolumePath.{
  ApplyFn, apply, at, uniq, first, top_level_path_list, remove_invalid_path, convert_file_path,
}
use logging_operator.Annotation.{
  Handler, new_handler, add_tailer_annotation, file_paths_for_container,
}

-- A `VolumeMount`; the code sets its name and its path.
pub record VolumeMount : Type 0 where
  pub name : Text
  pub mount_path : Text

-- A `Volume` with an empty directory
pub record Volume : Type 0 where
  pub name : Text
  pub empty_dir : Bool

pub record Container : Type 0 where
  pub name : Text
  pub image : Text
  pub command : List Text
  pub volume_mounts : List VolumeMount

new_volume_mount : Text → Text → VolumeMount
new_volume_mount path name = record { name = name; mount_path = path }

new_volume : Text → Volume
new_volume name = record { name = name; empty_dir = true }

-- ".." behind the elements so far, last first: at the root it is dropped.
step_back : Bool → List Text → List Text
step_back true [] = []
step_back false [] = codes ".." ∷ []
step_back rooted (p ∷ ps) = if p == codes ".." then codes ".." ∷ p ∷ ps else ps

-- An element of a path behind those so far: "" and "." are dropped.
push : Bool → List Text → Text → List Text
unfolding step_back
push rooted out part =
    if is_empty part
    then out
    else if part == codes "."
    then out
    else if part == codes ".."
    then step_back rooted out
    else part ∷ out

clean_parts : Bool → List Text → List Text → List Text
unfolding push
clean_parts rooted out [] = reverse out
clean_parts rooted out (p ∷ ps) = clean_parts rooted (push rooted out p) ps

is_rooted : Text → Bool
is_rooted [] = false
is_rooted (c ∷ s) = leb c b'/' && leb b'/' c

or_dot : Text → Text
or_dot [] = codes "."
or_dot (c ∷ s) = c ∷ s

-- `filepath.Clean`
clean : Text → Text
unfolding clean_parts is_rooted or_dot split_on join
clean path =
    let rooted = is_rooted path in
    let rest = join (clean_parts rooted [] (split_on b'/' path)) (codes "/") in
    if rooted then b'/' ∷ rest else or_dot rest

drop_last : List Text → List Text
drop_last [] = []
drop_last (p ∷ []) = [] ∷ []
drop_last (p ∷ q ∷ ps) = p ∷ drop_last (q ∷ ps)

-- `filepath.Dir`: what stands up to the last slash, cleaned
dir : Text → Text
unfolding clean drop_last split_on join
dir path = clean (join (drop_last (split_on b'/' path)) (codes "/"))

-- What is added to a pod
pub record Additions : Type 0 where
  pub side_cars : List Container
  pub volumes : List Volume
  pub volume_mounts : List VolumeMount

module _ (lower : ℕ → ℕ) (image : Text) (path_args : Text → List Text) where
  command : Text → List Text
  command file_path =
      (codes "/fluent-bit/bin/fluent-bit"
        ∷ codes "-i"
        ∷ codes "tail"
        ∷ codes "-p"
        ∷ (codes "path=" ++ file_path)
        ∷ codes "-o"
        ∷ codes "file"
        ∷ codes "-p"
        ∷ codes "format=template"
        ∷ codes "-p"
        ∷ codes "template={log}"
        ∷ [])
      ++ path_args (codes "/dev/stdout")

  container_of : Text → VolumeMount → List Text → Container
  container_of name volume_mount cmd = record {
    name = name;
    image = image;
    command = cmd;
    volume_mounts = volume_mount ∷ [];
  }

  containerized_path : Text → Text → Text
  containerized_path container_name volume_path = b'/' ∷ (container_name ++ volume_path)

  containerized_volume_name : Text → Text → Text
  unfolding containerized_path convert_file_path
  containerized_volume_name container_name volume_path =
      convert_file_path lower (containerized_path container_name volume_path)

  volumes_of : List Text → List Volume
  unfolding new_volume convert_file_path
  volumes_of [] = []
  volumes_of (v ∷ vs) = new_volume (convert_file_path lower v) ∷ volumes_of vs

  prefix_of : Text → Text → Option Text
  unfolding dir
  prefix_of file_path path = if has_prefix (dir file_path) path then some path else none

  -- The first of the volume paths with which the directory of a file begins
  volume_path_for : Text → List Text → Option Text
  unfolding first apply at prefix_of
  volume_path_for file_path volume_paths =
      first (apply (some (at (prefix_of file_path))) (some volume_paths))

  side_car : Text → Text → Text → Container
  unfolding container_of new_volume_mount containerized_volume_name command convert_file_path
  side_car container_name file_path path =
      container_of (convert_file_path lower file_path)
        (new_volume_mount path (containerized_volume_name container_name path)) (command file_path)

  -- `Containers`: a file with no volume path ends the loop.
  containers : List Text → List Text → Text → List Container
  unfolding volume_path_for side_car
  containers [] volume_paths container_name = []
  containers (f ∷ fs) volume_paths container_name = elim (volume_path_for f volume_paths) [
    | none ↦ []
    | some path ↦ side_car container_name f path ∷ containers fs volume_paths container_name
  ]

  mounts_of : Text → List Text → List VolumeMount
  unfolding new_volume_mount containerized_volume_name
  mounts_of container_name [] = []
  mounts_of container_name (d ∷ ds) =
      new_volume_mount d (containerized_volume_name container_name d) ∷ mounts_of container_name ds

  -- `l.Strings()`, which is not called on nil here
  strings_of : Option (List Text) → List Text
  strings_of none = []
  strings_of (some l) = l

  -- The files that are tailed, and the directories in which they are
  file_list : List Text → List Text
  unfolding strings_of remove_invalid_path uniq
  file_list files = strings_of (remove_invalid_path none (uniq (some files)))

  dir_list : List Text → List Text
  unfolding strings_of apply at dir uniq top_level_path_list
  dir_list files =
      strings_of (uniq (top_level_path_list (apply (some (at (λ p. some (dir p)))) (some files))))

  -- `sideCarsForContainer`
  pub side_cars_for_container : Text → List Text → Additions
  unfolding strings_of file_list dir_list apply at containerized_path volumes_of containers
      mounts_of
  side_cars_for_container container_name files_to_tail =
      let files = file_list files_to_tail in
      let dirs = dir_list files in
      record {
        side_cars = containers files dirs container_name;
        volumes = volumes_of (
            strings_of
              (apply (some (at (λ p. some (containerized_path container_name p)))) (some dirs)));
        volume_mounts = mounts_of container_name dirs;
      }

-- ===== src/Kubernetes/Pods/Mounts.antt =====
-- The volumes of a pod and where its containers mount them (SetVolumes and SetVolumeMounts of
-- pkg/transformer/kubernetes/podspec.go). The order in which a set is visited is a parameter.
pub mod Distinct
use kompose.Base.{
  Bool, true, false, not, List, [], ◌∷◌, ◌++◌, map, filter, Text, ◌==◌, if◌then◌else◌,
}
use kompose.Kubernetes.Types.{Volume, VolumeMount, Container, PodSpec}
use kompose.Kubernetes.Ports.{has_key}

-- The set of the names, as a list without repetition.
unfoldable pub set_of : List Text → List Text
unfolding has_key
set_of [] = []
set_of (name ∷ names) = let rest = set_of names in if has_key name rest then rest else name ∷ rest

unfoldable pub set_volume_names : List Volume → List Text
unfolding set_of
set_volume_names volumes = set_of (map (λ v. v.name) volumes)

unfoldable pub set_volume_mount_paths : List VolumeMount → List Text
unfolding set_of
set_volume_mount_paths mounts = set_of (map (λ m. m.mount_path) mounts)

-- The names of one set that another lacks.
unfoldable pub difference : List Text → List Text → List Text
unfolding has_key
difference names others = filter (λ n. not (has_key n others)) names

module _ {A : Type 0} (key : A → Text) where
  -- The loop over the elements, up to the break: the first that has the name.
  unfoldable pub first_named : Text → List A → List A
  first_named name [] = []
  first_named name (x ∷ xs) =
      let rest = first_named name xs in if key x == name then x ∷ [] else rest

  -- The loop over the names that are visited.
  unfoldable pub append_named : List Text → List A → List A → List A
  unfolding first_named
  append_named [] xs present = present
  append_named (name ∷ names) xs present = append_named names xs (present ++ first_named name xs)

module _ (order : List Text → List Text) where
  unfoldable pub set_volumes : List Volume → PodSpec → PodSpec
  unfolding set_volume_names difference append_named
  set_volumes volumes pod = record pod {
    volumes =
        append_named (λ v. v.name)
          (order (difference (set_volume_names volumes) (set_volume_names pod.volumes))) volumes
          pod.volumes;
  }

  unfoldable pub mount_in : List VolumeMount → Container → Container
  unfolding set_volume_mount_paths difference append_named
  mount_in mounts c = record c {
    volume_mounts =
        append_named (λ m. m.mount_path)
          (order
            (difference (set_volume_mount_paths mounts) (set_volume_mount_paths c.volume_mounts)))
          mounts c.volume_mounts;
  }

  unfoldable pub set_volume_mounts : List VolumeMount → PodSpec → PodSpec
  unfolding mount_in
  set_volume_mounts mounts pod = record pod { containers = map (mount_in mounts) pod.containers }

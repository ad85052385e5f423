-- ===== src/Kubernetes/Pods/Tests.antt =====
-- A check that says nothing of how it is made, and volumes that are added to a pod.
use kompose.Base.{
  ◌≡◌, ◌↔◌, ◌⊎◌, refl, false, List, [], ◌∷◌, ◌++◌, map, Text, codes, ◌==◌, All, In, AllDistinct,
}
use kompose.Base.Int.{pos}
use kompose.Base.Outcome.{panic}
use kompose.Kobject.{HealthCheck}
use kompose.Kobject.Samples.{no_check}
use kompose.Kubernetes.Types.{Volume, VolumeMount, PodSpec, empty_dir}
use kompose.Kubernetes.Workloads.{pod_with}
use kompose.Kubernetes.Pods.Probes.{is_blank, config_probe, IsUndefined, config_probe-panics}
use kompose.Kubernetes.Pods.Mounts.{set_volumes, set_volume_mounts}
use kompose.Kubernetes.Pods.Mounts.Distinct.{
  IsVisit, paths, set_volumes-AllDistinct, set_volume_mounts-AllDistinct,
}
use kompose.Kubernetes.Pods.Init.{interpolate, parse_container_commands_from_str}

abbrev timed : HealthCheck
timed = record no_check { timeout = pos 5 }

config_probe-panics_example :
    (config_probe timed ≡ panic) ↔ ((is_blank timed ≡ false) × (false ≡ false) × IsUndefined timed)
config_probe-panics_example = config_probe-panics timed

timed_panics : config_probe timed ≡ panic
unfolding config_probe ◌==◌
timed_panics = refl

abbrev as_listed : List Text → List Text
as_listed names = names

as_listed-IsVisit : IsVisit as_listed
as_listed-IsVisit = record { meets = λ n ns. (λ i. i, λ i. i); once = λ ns h. h }

abbrev volume_named : Text → Volume
volume_named name = record { name = name; source = empty_dir [] }

abbrev mount_at : Text → VolumeMount
mount_at path = record { name = codes "cache"; read_only = false; mount_path = path; sub_path = [] }

abbrev with_cache : PodSpec
with_cache = pod_with (codes "web") (codes "web") [] (volume_named (codes "cache") ∷ []) []

abbrev more_volumes : List Volume
more_volumes = volume_named (codes "cache") ∷ volume_named (codes "logs") ∷ []

set_volumes-AllDistinct_example :
    ((new : List Volume) × ((set_volumes as_listed more_volumes with_cache).volumes
        ≡ with_cache.volumes ++ new))
    × ((n : Text)
        → In n (map (λ v. v.name) (set_volumes as_listed more_volumes with_cache).volumes)
          ↔ (In n (map (λ v. v.name) more_volumes) ⊎ In n (map (λ v. v.name) with_cache.volumes)))
    × AllDistinct (map (λ v. v.name) (set_volumes as_listed more_volumes with_cache).volumes)
set_volumes-AllDistinct_example =
    set_volumes-AllDistinct as_listed more_volumes with_cache as_listed-IsVisit (tt, tt)

set_volume_mounts-AllDistinct_example :
    All
      (λ c.
        AllDistinct (paths c)
        × ((n : Text)
            → In n (map (λ m. m.mount_path) (mount_at (codes "/tmp") ∷ []))
            → In n (paths c)))
      (set_volume_mounts as_listed (mount_at (codes "/tmp") ∷ []) with_cache).containers
set_volume_mounts-AllDistinct_example =
    set_volume_mounts-AllDistinct as_listed (mount_at (codes "/tmp") ∷ []) with_cache
      as_listed-IsVisit (tt, tt)

args_test : interpolate false (codes "$HOST:$PORT/a") ≡ codes "$(HOST):$(PORT)/a"
unfolding interpolate
args_test = refl

commands_test :
    parse_container_commands_from_str (codes "[ \"bundle\", 'exec' ]")
    ≡ codes "bundle" ∷ codes "exec" ∷ []
unfolding parse_container_commands_from_str ◌==◌
commands_test = refl

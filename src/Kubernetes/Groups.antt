-- ===== src/Kubernetes/Groups.antt =====
-- The services that share a workload (KomposeObjectToServiceConfigGroupMapping of
-- pkg/transformer/kubernetes/k8sutils.go).
pub mod Members
mod Tests
use kompose.Base.{
  ℕ, Bool, true, false, Option, none, some, List, [], ◌∷◌, ◌++◌, map, Text, codes, ◌==◌,
  if◌then◌else◌,
}
use kompose.Base.Dict.{Dict, lookup, insert, get_text}
use kompose.Base.Sorting.{sort_stable}
use kompose.Kobject.{ServiceConfig, ConvertOptions}

abbrev pub label_service_group : Text
label_service_group = codes "kompose.service.group"

-- The texts of `VolList`, one behind the other.
unfoldable pub volumes_id_of : List Text → Text
volumes_id_of [] = []
volumes_id_of (v ∷ vol_list) = v ++ volumes_id_of vol_list

unfoldable pub get_service_volumes_id : ServiceConfig → Text
unfolding volumes_id_of
get_service_volumes_id s = volumes_id_of s.vol_list

unfoldable pub get_service_group_id : ServiceConfig → Text → Text
unfolding get_service_volumes_id get_text
get_service_group_id s mode =
    if mode == codes "label"
    then get_text label_service_group s.labels
    else if mode == codes "volume"
    then get_service_volumes_id s
    else []

unfoldable pub sorted_keys {ℓ} : {V : Type ℓ} → Dict V → List Text
unfolding sort_stable
sorted_keys services = sort_stable (λ k. k) (map (λ e. e.0) services)

-- A group of the map, or none of its services.
unfoldable pub get_group : Text → Dict (List ServiceConfig) → List ServiceConfig
unfolding lookup
get_group id groups = elim (lookup id groups) [ none ↦ [] | some g ↦ g ]

abbrev pub in_group_as : Text → ServiceConfig → ServiceConfig
in_group_as name s = record s { name = name; in_group = true }

-- The loop over the sorted keys, with the groups and the services of the object.
unfoldable pub group_services :
    Text
    → List Text
    → Dict (List ServiceConfig)
    → Dict ServiceConfig
    → Dict (List ServiceConfig) × Dict ServiceConfig
unfolding get_group get_service_group_id lookup insert
group_services mode [] groups services = (groups, services)
group_services mode (name ∷ names) groups services = elim (lookup name services) [
  | none ↦ group_services mode names groups services
  | some s ↦
      let id = get_service_group_id s mode in
      let skip = group_services mode names groups services in
      let join =
        group_services mode names
          (insert id (get_group id groups ++ in_group_as name s ∷ []) groups)
          (insert name (in_group_as name s) services) in
      if id == [] then skip else join
]

unfoldable pub kompose_object_to_service_config_group_mapping :
    Dict ServiceConfig → ConvertOptions → Dict (List ServiceConfig) × Dict ServiceConfig
unfolding group_services sorted_keys
kompose_object_to_service_config_group_mapping services opt =
    group_services opt.service_group_mode (sorted_keys services) [] services

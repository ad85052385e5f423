-- ===== src/Kubernetes/Groups/Tests.antt =====
-- Two services with one volume.
use kompose.Base.{◌≡◌, ◌≢◌, [], ◌∷◌, codes, arith}
use kompose.Base.Dict.{Dict}
use kompose.Kobject.{ServiceConfig, ConvertOptions}
use kompose.Kobject.Samples.{bare_service, bare_options}
use kompose.Kubernetes.Groups.{
  get_group, sorted_keys, kompose_object_to_service_config_group_mapping,
}
use kompose.Kubernetes.Groups.Members.{members, group_mapping-members}

abbrev with_volume : ServiceConfig
with_volume = record bare_service { vol_list = codes "data:/data" ∷ [] }

abbrev services : Dict ServiceConfig
services =
    (codes "web", with_volume) ∷ (codes "job", with_volume) ∷ (codes "log", bare_service) ∷ []

abbrev by_volume : ConvertOptions
by_volume = record bare_options { service_group_mode = codes "volume" }

id_nonempty : codes "data:/data" ≢ []
id_nonempty = ground arith

group_mapping-members_example :
    get_group
      (codes "data:/data")
      (kompose_object_to_service_config_group_mapping services by_volume).0
    ≡ members by_volume.service_group_mode (codes "data:/data") (sorted_keys services) services
group_mapping-members_example =
    group_mapping-members services by_volume (codes "data:/data") id_nonempty

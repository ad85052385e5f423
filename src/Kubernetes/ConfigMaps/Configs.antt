-- ===== src/Kubernetes/ConfigMaps/Configs.antt =====
-- The config maps of the configs of a service (createConfigMapFromComposeConfig of
-- pkg/transformer/kubernetes/kubernetes.go, GetConfigMapKeyFromMeta of pkg/kobject/kobject.go).
use kompose.Base.{false, none, some, List, [], ◌∷◌, ◌++◌, Text, ◌==◌, if◌then◌else◌}
use kompose.Base.Dict.{Dict, lookup}
use kompose.Base.Outcome.{Outcome, ok, err, ◌>>=◌}
use kompose.Host.{Host}
use kompose.Kobject.{FileReference, ConfigObject, ServiceConfig}
use kompose.Kubernetes.Types.{RuntimeObject}
use kompose.Kubernetes.Formats.{base_name}
use kompose.Kubernetes.ConfigMaps.{init_config_map_from_file, init_config_map_from_content}

-- m[k] for a missing key
abbrev pub no_config : ConfigObject
no_config = record { file = []; external = false; content = []; environment = [] }

unfoldable pub config_named : Text → Dict ConfigObject → ConfigObject
unfolding lookup
config_named name configs = elim (lookup name configs) [ none ↦ no_config | some c ↦ c ]

-- What one config adds to the objects.
unfoldable pub config_map_of :
    Host → Text → ServiceConfig → FileReference → Outcome (List RuntimeObject)
unfolding config_named init_config_map_from_file init_config_map_from_content
config_map_of host name s config =
    let current = config_named config.source s.configs_meta_data in
    let target = if config.target == [] then config.source else config.target in
    if current.external
    then ok []
    else if current.file == []
    then (if current.content == []
        then ok []
        else ok (init_config_map_from_content host name current.content config.source target ∷ []))
    else (do made ← init_config_map_from_file host name s current.file; ok (made ∷ []))

-- The loop over the configs.
unfoldable pub config_maps_of :
    Host → Text → ServiceConfig → List FileReference → Outcome (List RuntimeObject)
unfolding config_map_of
config_maps_of host name s [] = ok []
config_maps_of host name s (config ∷ configs) =
    let rest = config_maps_of host name s configs in
    do made ← config_map_of host name s config; more ← rest; ok (made ++ more)

unfoldable pub create_config_map_from_compose_config :
    Host → Text → ServiceConfig → List RuntimeObject → Outcome (List RuntimeObject)
unfolding config_maps_of
create_config_map_from_compose_config host name s objects = do
  made ← config_maps_of host name s s.configs
  ok (objects ++ made)

-- The loop over the configs for the one of the name.
unfoldable pub key_of_content : Text → List FileReference → Outcome Text
unfolding base_name
key_of_content name [] = err
key_of_content name (c ∷ configs) =
    let rest = key_of_content name configs in
    if c.source == name
    then ok (base_name (if c.target == [] then c.source else c.target))
    else rest

unfoldable pub get_config_map_key_from_meta : ServiceConfig → Text → Outcome Text
unfolding lookup base_name key_of_content
get_config_map_key_from_meta s name = elim (lookup name s.configs_meta_data) [
  | none ↦ err
  | some config ↦
      if config.external
      then err
      else if config.file == []
      then (if config.content == [] then err else key_of_content name s.configs)
      else ok (base_name config.file)
]

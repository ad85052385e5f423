-- ===== src/Kubernetes/Workloads/Choice.antt =====
-- Which workloads a service gets (CreateWorkloadAndConfigMapObjects of
-- pkg/transformer/kubernetes/kubernetes.go).
use kompose.Base.{
  Bool, true, false, ◌&&◌, ◌||◌, Option, none, some, List, [], ◌∷◌, ◌++◌, Text, codes, ◌==◌, length,
  ltb, if◌then◌else◌,
}
use kompose.Base.Int.{ℤ, pos, eqb_ℤ}
use kompose.Base.Dict.{lookup}
use kompose.Base.Outcome.{Outcome, ok, ◌>>=◌}
use kompose.Host.{Host}
use kompose.Kobject.{ServiceConfig, ConvertOptions}
use kompose.Kubernetes.Types.{RuntimeObject}
use kompose.Kubernetes.Workloads.{init_d, init_ds, init_ss}
use kompose.Kubernetes.ConfigMaps.{parge_env_file_to_config_maps}
use kompose.Kubernetes.ConfigMaps.Configs.{create_config_map_from_compose_config}

abbrev pub deployment_controller : Text
deployment_controller = codes "deployment"

abbrev pub daemon_set_controller : Text
daemon_set_controller = codes "daemonset"

abbrev pub stateful_state_controller : Text
stateful_state_controller = codes "statefulset"

abbrev pub label_controller_type : Text
label_controller_type = codes "kompose.controller.type"

-- The replicas of the command line, or of the service.
unfoldable pub replica_of : ServiceConfig → ConvertOptions → ℤ
replica_of s opt =
    if opt.is_replica_set_flag || eqb_ℤ s.replicas (pos 0) then opt.replicas else s.replicas

-- A global service is a daemon set, unless a controller is asked for.
unfoldable pub for_global : ServiceConfig → ConvertOptions → ConvertOptions
for_global s opt =
    if s.deploy_mode == codes "global" && opt.controller == []
    then record opt { create_d = false; create_ds = true }
    else opt

-- The label overrides the options.
unfoldable pub for_label : Option Text → ConvertOptions → ConvertOptions
for_label none opt = opt
for_label (some val) opt = record opt {
  create_d = false;
  create_ds = false;
  create_rc = false;
  controller = val;
}

unfoldable pub resolve_controller : ServiceConfig → ConvertOptions → ConvertOptions
unfolding for_global for_label lookup
resolve_controller s opt = for_label (lookup label_controller_type s.labels) (for_global s opt)

-- A list of one object, or none.
abbrev pub only_if : Bool → RuntimeObject → List RuntimeObject
only_if true o = o ∷ []
only_if false o = []

unfoldable pub workloads : Host → Text → ServiceConfig → ℤ → ConvertOptions → List RuntimeObject
unfolding init_d init_ds init_ss
workloads host name s replica opt =
    only_if (opt.create_d || opt.controller == deployment_controller) (init_d host name s replica)
    ++ only_if (opt.create_ds || opt.controller == daemon_set_controller) (init_ds name s)
    ++ only_if (opt.controller == stateful_state_controller) (init_ss name s replica)

unfoldable pub create_workload_and_config_map_objects :
    Host → Text → ServiceConfig → ConvertOptions → Outcome (List RuntimeObject)
unfolding resolve_controller replica_of workloads create_config_map_from_compose_config
    parge_env_file_to_config_maps
create_workload_and_config_map_objects host name s opt =
    let resolved = resolve_controller s opt in
    do
      config_maps ←
          (if ltb 0 (length s.configs)
            then create_config_map_from_compose_config host name s []
            else ok [])
      env_config_maps ← parge_env_file_to_config_maps host name s resolved
      ok (config_maps ++ workloads host name s (replica_of s opt) resolved ++ env_config_maps)

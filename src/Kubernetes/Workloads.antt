-- ===== src/Kubernetes/Workloads.antt =====
-- The pods and the workloads of a service before their update
-- (pkg/transformer/kubernetes/kubernetes.go).
pub mod Choice
use kompose.Base.{
  ℕ, Bool, true, false, ◌&&◌, ◌||◌, not, Option, none, some, List, [], ◌∷◌, ◌++◌, Text, codes, ◌==◌,
  length, ltb, if◌then◌else◌,
}
use kompose.Base.Int.{ℤ, pos, eqb_ℤ, to_int32}
use kompose.Base.Dict.{Dict, lookup}
use kompose.Base.Outcome.{Outcome, ok, err, panic, ◌>>=◌}
use kompose.Host.{Host}
use kompose.Kobject.{FileReference, ServiceConfig, ConvertOptions}
use kompose.Kobject.Update.{RollingUpdate, get_kubernetes_update_strategy}
use kompose.Transformer.Labels.{config_labels, config_all_labels}
use kompose.Transformer.Annotations.{config_annotations}
use kompose.Kubernetes.Types.{
  ObjectMeta, RuntimeObject, ObjectBody, Container, Volume, VolumeMount, PodSpec, PodTemplateSpec,
  config_map, deployment, daemon_set, stateful_set, cron_job, pod,
}
use kompose.Kubernetes.Formats.{base_name, format_file_name}
use kompose.Kubernetes.ConfigMaps.{parge_env_file_to_config_maps}
use kompose.Kubernetes.ConfigMaps.Configs.{
  get_config_map_key_from_meta, create_config_map_from_compose_config,
}

-- A pod of one container.
abbrev pub pod_with : Text → Text → List VolumeMount → List Volume → Text → PodSpec
pod_with name image mounts volumes pull_secret = record {
  containers =
      record {
        name = name;
        image = image;
        env = [];
        env_from = [];
        command = [];
        args = [];
        working_dir = [];
        stdin = false;
        tty = false;
        ports = [];
        volume_mounts = mounts;
        limits = none;
        requests = none;
        liveness_probe = none;
        readiness_probe = none;
        security_context = none;
        image_pull_policy = [];
      }
      ∷ [];
  init_containers = [];
  volumes = volumes;
  image_pull_secrets = if pull_secret == [] then [] else pull_secret ∷ [];
  affinity = none;
  topology_spread_constraints = [];
  termination_grace_period_seconds = none;
  security_context = none;
  restart_policy = [];
  hostname = [];
  subdomain = [];
  service_account_name = [];
}

unfoldable pub init_pod_spec : Text → Text → Text → PodSpec
init_pod_spec name image pull_secret =
    pod_with name (if image == [] then name else image) [] [] pull_secret

-- Where a config is mounted, in the short syntax at the root.
unfoldable pub config_target : FileReference → Text
config_target value = if value.target == [] then b'/' ∷ value.source else value.target

unfoldable pub config_mount : FileReference → VolumeMount
unfolding format_file_name config_target base_name
config_mount value = record {
  name = format_file_name value.source;
  read_only = false;
  mount_path = config_target value;
  sub_path = base_name (config_target value);
}

unfoldable pub config_volume : FileReference → Text → Volume
unfolding format_file_name config_target base_name
config_volume value key = record {
  name = format_file_name value.source;
  source =
      config_map (format_file_name value.source)
        (record { key = key; path = base_name (config_target value) } ∷ [])
        (elim value.mode [ none ↦ none | some mode ↦ some (to_int32 (pos mode)) ]);
}

-- The loop over the configs; a config without a key is skipped.
unfoldable pub mounted_configs : ServiceConfig → List FileReference → List VolumeMount × List Volume
unfolding config_mount config_volume get_config_map_key_from_meta
mounted_configs s [] = ([], [])
mounted_configs s (value ∷ configs) =
    let rest = mounted_configs s configs in
    elim (get_config_map_key_from_meta s value.source) [
      | ok key ↦ (config_mount value ∷ rest.0, config_volume value key ∷ rest.1)
      | err ↦ rest
      | panic ↦ rest
    ]

unfoldable pub init_pod_spec_with_config_map : Text → Text → ServiceConfig → PodSpec
unfolding mounted_configs
init_pod_spec_with_config_map name image s =
    let mounted = mounted_configs s s.configs in
    pod_with name image mounted.0 mounted.1 s.image_pull_secret

abbrev pub pod_of_service : Text → ServiceConfig → PodSpec
pod_of_service name s =
    if ltb 0 (length s.configs)
    then init_pod_spec_with_config_map name s.image s
    else init_pod_spec name s.image s.image_pull_secret

abbrev pub metadata : Text → Dict Text → Dict Text → ObjectMeta
metadata name labels annotations = record {
  name = name;
  namespace = [];
  labels = labels;
  annotations = annotations;
}

abbrev bare_template : PodSpec → PodTemplateSpec
bare_template spec = record { labels = []; annotations = []; spec = spec }

-- The strategy is of the type RollingUpdate where the service asks for one.
unfoldable pub strategy_type_of : Option RollingUpdate → Text
strategy_type_of none = []
strategy_type_of (some update) = codes "RollingUpdate"

unfoldable pub init_d : Host → Text → ServiceConfig → ℤ → RuntimeObject
unfolding init_pod_spec init_pod_spec_with_config_map config_all_labels config_labels
    config_annotations strategy_type_of get_kubernetes_update_strategy
init_d host name s replicas =
    let update = get_kubernetes_update_strategy host.to_int s.deploy_update_config in
    record {
      api_version = codes "apps/v1";
      kind = codes "Deployment";
      meta = metadata name (config_all_labels name s) [];
      body = deployment (record {
        replicas = to_int32 replicas;
        strategy_type = strategy_type_of update;
        rolling_update = update;
        selector = config_labels name;
        template = record {
          labels = config_labels name;
          annotations = config_annotations host s;
          spec = pod_of_service name s;
        };
      });
    }

unfoldable pub init_ds : Text → ServiceConfig → RuntimeObject
unfolding init_pod_spec config_all_labels config_labels
init_ds name s = record {
  api_version = codes "apps/v1";
  kind = codes "DaemonSet";
  meta = metadata name (config_all_labels name s) [];
  body = daemon_set (record {
    selector = config_labels name;
    template = bare_template (init_pod_spec name s.image s.image_pull_secret);
  });
}

unfoldable pub init_ss : Text → ServiceConfig → ℤ → RuntimeObject
unfolding init_pod_spec init_pod_spec_with_config_map config_all_labels config_labels
init_ss name s replicas = record {
  api_version = codes "apps/v1";
  kind = codes "StatefulSet";
  meta = metadata name (config_all_labels name s) [];
  body = stateful_set (record {
    replicas = to_int32 replicas;
    service_name = s.name;
    selector = config_labels name;
    template = bare_template (pod_of_service name s);
    volume_claim_templates = [];
  });
}

unfoldable pub init_cj : Text → ServiceConfig → Text → Text → Option ℤ → RuntimeObject
unfolding init_pod_spec config_all_labels
init_cj name s schedule concurrency_policy backoff_limit = record {
  api_version = codes "batch/v1";
  kind = codes "CronJob";
  meta = metadata name (config_all_labels name s) [];
  body = cron_job (record {
    schedule = schedule;
    concurrency_policy = concurrency_policy;
    backoff_limit = backoff_limit;
    template = bare_template (init_pod_spec name s.image s.image_pull_secret);
  });
}

unfoldable pub init_pod : Host → Text → ServiceConfig → RuntimeObject
unfolding init_pod_spec config_labels config_annotations
init_pod host name s = record {
  api_version = codes "v1";
  kind = codes "Pod";
  meta = metadata name (config_labels name) (config_annotations host s);
  body = pod (init_pod_spec name s.image s.image_pull_secret);
}

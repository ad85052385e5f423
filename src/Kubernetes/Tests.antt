-- ===== src/Kubernetes/Tests.antt =====
-- The objects of a web server with a proxy, and an autoscaler's labels.
use kompose.Base.{
  ◌≡◌, ◌≢◌, refl, some, none, [], ◌∷◌, ◌++◌, map, filter, List, arith, Text, codes, ◌==◌, false,
  All, AllDistinct,
}
use kompose.Base.Int.{pos}
use kompose.Base.Decimal.{atoi}
use kompose.Base.Dict.{get_text}
use kompose.Kobject.{ServiceConfig}
use kompose.Kobject.Samples.{bare_service}
use kompose.Kubernetes.Types.{RuntimeObject, ObjectMeta, Container, PodSpec, deployment, service}
use kompose.Kubernetes.Objects.{remove_dup_objects}
use kompose.Kubernetes.Objects.Order.{dup_keys, remove_dup_objects-AllDistinct}
use kompose.Kubernetes.NetworkMode.{
  DeploymentMapping, is_named, merge_containers_into_destination_deployment,
  remove_deployment_transfered, remove_target_deployment,
}
use kompose.Kubernetes.NetworkMode.Move.{is_kept, remove_target_deployment-filter}
use kompose.Kubernetes.NetworkMode.Merge.{receive, containers_of, move-receive}
use kompose.Kubernetes.Hpa.{label_hpa_min_replicas, get_resource_hpa_values}
use kompose.Kubernetes.Hpa.Bounds.{IsScaled, get_resource_hpa_values-IsScaled}

abbrev container_named : Text → Container
container_named name = record {
  name = name;
  image = name;
  env = [];
  env_from = [];
  command = [];
  args = [];
  working_dir = [];
  stdin = false;
  tty = false;
  ports = [];
  volume_mounts = [];
  limits = none;
  requests = none;
  liveness_probe = none;
  readiness_probe = none;
  security_context = none;
  image_pull_policy = [];
}

abbrev pod_of : Text → PodSpec
pod_of name = record {
  containers = container_named name ∷ [];
  init_containers = [];
  volumes = [];
  image_pull_secrets = [];
  affinity = none;
  topology_spread_constraints = [];
  termination_grace_period_seconds = none;
  security_context = none;
  restart_policy = [];
  hostname = [];
  subdomain = [];
  service_account_name = [];
}

abbrev meta_of : Text → ObjectMeta
meta_of name = record { name = name; namespace = []; labels = []; annotations = [] }

abbrev deployment_of : Text → RuntimeObject
deployment_of name = record {
  api_version = codes "apps/v1";
  kind = codes "Deployment";
  meta = meta_of name;
  body = deployment (record {
    replicas = pos 1;
    strategy_type = [];
    rolling_update = none;
    selector = [];
    template = record { labels = []; annotations = []; spec = pod_of name };
  });
}

abbrev service_of : Text → RuntimeObject
service_of name = record {
  api_version = codes "v1";
  kind = codes "Service";
  meta = meta_of name;
  body = service (record {
    selector = [];
    ports = [];
    service_type = [];
    cluster_ip = [];
    external_traffic_policy = [];
  });
}

abbrev objects : List RuntimeObject
objects =
    deployment_of (codes "web") ∷ deployment_of (codes "proxy") ∷ service_of (codes "web") ∷ []

remove_dup_objects-AllDistinct_example :
    AllDistinct (dup_keys (remove_dup_objects (objects ++ objects)))
remove_dup_objects-AllDistinct_example = remove_dup_objects-AllDistinct (objects ++ objects)

abbrev into_web : DeploymentMapping
into_web = record { source_deployment_name = codes "proxy"; target_deployment_name = codes "web" }

abbrev into_gone : DeploymentMapping
into_gone = record { source_deployment_name = codes "proxy"; target_deployment_name = codes "gone" }

remove_target_deployment-filter_example :
    remove_target_deployment (codes "proxy") objects ≡ filter (is_kept (codes "proxy")) objects
remove_target_deployment-filter_example = remove_target_deployment-filter (codes "proxy") objects

proxy_web : codes "proxy" ≢ codes "web"
proxy_web = ground arith

proxy_gone : codes "proxy" ≢ codes "gone"
proxy_gone = ground arith

move-receive_example :
    remove_deployment_transfered
      (into_web ∷ [])
      (merge_containers_into_destination_deployment (into_web ∷ []) objects)
    ≡ filter
        (is_kept (codes "proxy"))
        (map (receive (codes "web") (containers_of (codes "proxy") objects)) objects)
move-receive_example = move-receive into_web objects proxy_web

no_target : All (λ o. is_named (codes "gone") o ≡ false) objects
unfolding is_named ◌==◌
no_target = (refl, (refl, (refl, tt)))

abbrev scaled : ServiceConfig
scaled = record bare_service { labels = (label_hpa_min_replicas, codes "3000000000") ∷ [] }

get_resource_hpa_values-IsScaled_example : IsScaled (get_resource_hpa_values scaled)
get_resource_hpa_values-IsScaled_example = get_resource_hpa_values-IsScaled scaled

three_billion : atoi (get_text label_hpa_min_replicas scaled.labels) ≡ some (pos 3000000000)
unfolding atoi get_text ◌==◌
three_billion = refl

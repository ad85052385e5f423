-- ===== src/Kubernetes/Transform/GroupPods.antt =====
-- What Transform does for a group of services: one pod with a container for each
-- (pkg/transformer/kubernetes/kubernetes.go).
use kompose.Base.{none, some, List, [], ◌∷◌, ◌++◌, map, Text, codes, ◌==◌, join, if◌then◌else◌}
use kompose.Base.Dict.{lookup}
use kompose.Base.Outcome.{Outcome, ok, err, ◌>>=◌}
use kompose.Host.{Host}
use kompose.Kobject.{ServiceConfig, ConvertOptions}
use kompose.Kubernetes.Types.{RuntimeObject, PodSpec}
use kompose.Kubernetes.Ports.{config_ports, use_ports}
use kompose.Kubernetes.Workloads.Choice.{create_workload_and_config_map_objects}
use kompose.Kubernetes.Services.Networks.{
  config_kube_service_and_ingress_for_service, config_network_policy_for_service,
}
use kompose.Kubernetes.Controllers.{
  all_volumes, claim_object, update_kubernetes_objects_multiple_containers,
}
use kompose.Kubernetes.Controllers.Templates.{label_service_account_name}
use kompose.Kubernetes.Pods.Mounts.{set_volumes, set_volume_mounts}
use kompose.Kubernetes.Pods.Resources.{resources_limits, resources_requests}
use kompose.Kubernetes.Pods.Security.{set_security_context}
use kompose.Kubernetes.Pods.Options.{
  append_options, add_container, set_ports, image_pull_policy, restart_policy, host_name,
  domain_name, termination_grace_period_seconds, topology_spread_constraints, service_account_name,
}
use kompose.Kubernetes.Transform.Steps.{build_service_image}

-- PodSpec{}
abbrev pub empty_pod : PodSpec
empty_pod = record {
  containers = [];
  init_containers = [];
  volumes = [];
  image_pull_secrets = [];
  affinity = none;
  topology_spread_constraints = [];
  termination_grace_period_seconds = none;
  security_context = none;
  restart_policy = [];
  hostname = [];
  subdomain = [];
  service_account_name = [];
}

-- The variables of the loop over a group.
pub record GroupState : Type 0 where
  pub ports_uses : List Text
  pub pod_spec : PodSpec
  pub objects : List RuntimeObject

unfoldable pub ports_or_conflict : List Text → ServiceConfig → Outcome (List Text)
unfolding use_ports config_ports
ports_or_conflict uses s = elim (use_ports uses (config_ports s)) [
  | none ↦ err
  | some used ↦ ok used
]

-- The options behind the volumes, in the order of the calls.
abbrev pub service_options : Host → Text → ServiceConfig → List (PodSpec → Outcome PodSpec)
service_options host name s =
    (λ p. ok (set_ports s p))
    ∷ image_pull_policy name s
    ∷ restart_policy name s
    ∷ set_security_context s
    ∷ (λ p. ok (host_name s p))
    ∷ (λ p. ok (domain_name s p))
    ∷ (λ p. ok (resources_limits s p))
    ∷ (λ p. ok (resources_requests s p))
    ∷ (λ p. ok (termination_grace_period_seconds host.seconds_of s p))
    ∷ (λ p. ok (topology_spread_constraints s p))
    ∷ []

-- The account of the label, where there is one.
unfoldable pub account_of : ServiceConfig → PodSpec → PodSpec
unfolding lookup service_account_name
account_of s pod = elim (lookup label_service_account_name s.labels) [
  | none ↦ pod
  | some account ↦ service_account_name account pod
]

-- One round of the loop over the services of a group.
unfoldable pub transform_group_service :
    Host → ConvertOptions → Text → ServiceConfig → GroupState → Outcome GroupState
unfolding ports_or_conflict append_options add_container build_service_image
    create_workload_and_config_map_objects config_kube_service_and_ingress_for_service all_volumes
    set_volumes set_volume_mounts set_ports image_pull_policy restart_policy set_security_context
    host_name domain_name resources_limits resources_requests termination_grace_period_seconds
    topology_spread_constraints account_of update_kubernetes_objects_multiple_containers
    config_network_policy_for_service
transform_group_service host opt group_name given st =
    let s = record given { with_kompose_annotation = opt.with_kompose_annotation } in
    do
      used ← ports_or_conflict st.ports_uses given
      added ← add_container host.read_env s st.pod_spec
      built ← build_service_image host opt s s.name
      created ← create_workload_and_config_map_objects host group_name s opt
      served ← config_kube_service_and_ingress_for_service host group_name s (st.objects ++ created)
      v ← all_volumes host opt group_name s
      configured ←
          append_options (service_options host group_name s)
            (set_volumes host.visit v.volumes (set_volume_mounts host.visit v.volume_mounts added))
      updated ←
          update_kubernetes_objects_multiple_containers host group_name s opt
            (account_of s configured) (served ++ map claim_object v.claims ++ v.config_maps)
      ok (record {
        ports_uses = used;
        pod_spec = account_of s configured;
        objects =
            if opt.generate_network_policies
            then config_network_policy_for_service s updated
            else updated;
      })

-- The loop over the services of a group.
unfoldable pub transform_group :
    Host → ConvertOptions → Text → List ServiceConfig → GroupState → Outcome GroupState
unfolding transform_group_service
transform_group host opt group_name [] st = ok st
transform_group host opt group_name (s ∷ group) st = do
  next ← transform_group_service host opt group_name s st
  transform_group host opt group_name group next

-- A group by its volumes is named by the option, or by its services.
unfoldable pub group_name_of : ConvertOptions → Text → List ServiceConfig → Text
unfolding join
group_name_of opt id group =
    if opt.service_group_mode == codes "volume"
    then (if opt.service_group_name == []
        then join (map (λ s. s.name) group) b'-'
        else opt.service_group_name)
    else id

-- ===== src/Kubernetes/Controllers/Templates.antt =====
-- What is written into a pod template (fillTemplate of UpdateKubernetesObjects and of
-- UpdateKubernetesObjectsMultipleContainers, pkg/transformer/kubernetes/k8sutils.go).
use kompose.Base.{
  true, ◌||◌, not, none, some, List, [], ◌∷◌, ◌++◌, Text, codes, ◌==◌, if◌then◌else◌,
}
use kompose.Base.Dict.{Dict, lookup}
use kompose.Base.Outcome.{Outcome, ok, panic, ◌>>=◌}
use kompose.Host.{Host}
use kompose.Kobject.{EnvVar, ServiceConfig, ConvertOptions}
use kompose.Transformer.Labels.{config_labels, config_labels_with_network}
use kompose.Kubernetes.Types.{Container, PodSpec, PodTemplateSpec, SecurityContext}
use kompose.Kubernetes.Ports.{config_ports}
use kompose.Kubernetes.Formats.{get_container_name}
use kompose.Kubernetes.Placement.{config_affinity, config_topology_spread_constraints}
use kompose.Kubernetes.Policies.{get_image_pull_policy, get_restart_policy}
use kompose.Kubernetes.Volumes.{VolumeConfig}
use kompose.Kubernetes.Workloads.Choice.{stateful_state_controller}
use kompose.Kubernetes.Pods.Probes.{config_probe}
use kompose.Kubernetes.Pods.Resources.{translate_pod_resource}
use kompose.Kubernetes.Pods.Security.{
  pod_security_context, container_security_context, is_restricted, restrict_first, finish_pod,
}
use kompose.Kubernetes.Pods.Init.{get_container_args, fill_init_containers}
use kompose.Kubernetes.Pods.Options.{
  termination_grace_period_seconds, host_name, domain_name, service_account_name,
}

abbrev pub label_service_account_name : Text
label_service_account_name = codes "kompose.serviceaccount-name"

-- The labels of a template, with the networks where network policies are made.
unfoldable pub template_labels : Text → ServiceConfig → ConvertOptions → Dict Text
unfolding config_labels config_labels_with_network
template_labels name s opt =
    if opt.generate_network_policies
    then config_labels_with_network name s.network
    else config_labels name

unfoldable pub fill_group_template :
    Text → ServiceConfig → ConvertOptions → PodSpec → PodTemplateSpec → Outcome PodTemplateSpec
unfolding template_labels
fill_group_template name s opt pod_spec template =
    ok (record template { labels = template_labels name s opt; spec = pod_spec })

-- The first container, up to its probes.
unfoldable pub fill_container :
    ServiceConfig → List EnvVar × List Text → VolumeConfig → Container → Container
unfolding get_container_name get_container_args
fill_container s envs v c = record c {
  name = get_container_name s;
  env = envs.0;
  env_from = envs.1;
  command = s.command;
  args = get_container_args s;
  working_dir = s.working_dir;
  volume_mounts = c.volume_mounts ++ v.volume_mounts;
  stdin = s.stdin;
  tty = s.tty;
}

-- The claims of a stateful set name its volumes, unless they are config maps.
unfoldable pub fill_pod : ServiceConfig → ConvertOptions → VolumeConfig → PodSpec → PodSpec
unfolding config_affinity config_topology_spread_constraints
fill_pod s opt v spec = record spec {
  volumes =
      if not (opt.controller == stateful_state_controller) || opt.volumes == codes "configMap"
      then spec.volumes ++ v.volumes
      else spec.volumes;
  affinity = config_affinity s;
  topology_spread_constraints = config_topology_spread_constraints s;
}

-- The security context of SecurityContext, with the root file system made read-only on demand.
unfoldable pub template_security_context : ServiceConfig → SecurityContext
unfolding container_security_context
template_security_context s = record (container_security_context s) {
  read_only_root_filesystem = if s.read_only then some true else none;
}

unfoldable pub secure_pod : ServiceConfig → PodSpec → Outcome PodSpec
unfolding template_security_context pod_security_context is_restricted restrict_first finish_pod
secure_pod s spec = finish_pod (pod_security_context s) (
    if is_restricted (template_security_context s)
    then restrict_first (template_security_context s) spec
    else ok spec)

-- `template.Spec.Containers[0]` is written; it panics where there is none.
unfoldable pub write_first : (Container → Container) → PodSpec → Outcome PodSpec
write_first f spec = elim spec.containers [
  | [] ↦ panic
  | first ∷ others ↦ ok (record spec { containers = f first ∷ others })
]

abbrev with_spec : PodTemplateSpec → PodSpec → PodTemplateSpec
with_spec template spec = record template { spec = spec }

-- What stands behind the policies: the names, the account and the init containers.
unfoldable pub finish_template : ServiceConfig → Text → PodTemplateSpec → PodTemplateSpec
unfolding host_name domain_name service_account_name fill_init_containers lookup
finish_template s restart template =
    let named = domain_name s (host_name s (record template.spec { restart_policy = restart })) in
    let account : PodSpec = elim (lookup label_service_account_name s.labels) [
      | none ↦ named
      | some account ↦ service_account_name account named
    ] in
    fill_init_containers s (with_spec template account)

unfoldable pub fill_template :
    Host
    → Text
    → ServiceConfig
    → ConvertOptions
    → List EnvVar × List Text
    → VolumeConfig
    → PodTemplateSpec
    → Outcome PodTemplateSpec
unfolding write_first fill_container fill_pod config_probe termination_grace_period_seconds
    translate_pod_resource secure_pod config_ports template_labels get_image_pull_policy
    get_restart_policy finish_template
fill_template host name s opt envs v template = do
  filled ← write_first (fill_container s envs v) template.spec
  liveness ← config_probe s.health_checks.liveness
  readiness ← config_probe s.health_checks.readiness
  probed ←
      write_first (λ c. record c { liveness_probe = liveness; readiness_probe = readiness })
        (fill_pod s opt v filled)
  resourced ←
      translate_pod_resource host.is_quantity s
        (with_spec template (termination_grace_period_seconds host.seconds_of s probed))
  secured ← secure_pod s resourced.spec
  policy ← get_image_pull_policy name s.image_pull_policy
  pulled ←
      write_first (λ c. record c { ports = config_ports s; image_pull_policy = policy }) secured
  restart ← get_restart_policy name s.restart
  ok (
      finish_template s restart
        (record template { labels = template_labels name s opt; spec = pulled }))

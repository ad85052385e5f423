-- ===== src/Kubernetes/Pods/Options.antt =====
-- The options that build a pod, from the settings of a service
-- (pkg/transformer/kubernetes/podspec.go). Parameters are the keys of an env file, and the whole
-- seconds of a duration.
use kompose.Base.{Option, none, some, List, [], ◌∷◌, ◌++◌, map, Text, ◌==◌, if◌then◌else◌}
use kompose.Base.Int.{ℤ}
use kompose.Base.Outcome.{Outcome, ok, err, ◌>>=◌, or_panic}
use kompose.Kobject.{EnvVar, ServiceConfig}
use kompose.Kubernetes.Types.{Container, PodSpec, Probe}
use kompose.Kubernetes.Ports.{config_ports}
use kompose.Kubernetes.Envs.{config_envs}
use kompose.Kubernetes.Formats.{get_container_name}
use kompose.Kubernetes.Placement.{config_affinity, config_topology_spread_constraints}
use kompose.Kubernetes.Policies.{get_image_pull_policy, get_restart_policy}
use kompose.Kubernetes.Pods.Probes.{config_probe}

-- The options, in turn; a panic of one ends the program.
unfoldable pub append_options : List (PodSpec → Outcome PodSpec) → PodSpec → Outcome PodSpec
append_options [] pod = ok pod
append_options (option ∷ options) pod = do next ← option pod; append_options options next

-- The container of a service, without its image pull policy, its ports and its mounts.
unfoldable pub container_of :
    ServiceConfig → List EnvVar × List Text → Option Probe → Option Probe → Container
unfolding get_container_name
container_of s envs liveness readiness = record {
  name = get_container_name s;
  image = if s.image == [] then get_container_name s else s.image;
  env = envs.0;
  env_from = envs.1;
  command = s.command;
  args = s.args;
  working_dir = s.working_dir;
  stdin = s.stdin;
  tty = s.tty;
  ports = [];
  volume_mounts = [];
  limits = none;
  requests = none;
  liveness_probe = liveness;
  readiness_probe = readiness;
  security_context = none;
  image_pull_policy = [];
}

unfoldable pub add_container :
    (Text → Outcome (List Text)) → ServiceConfig → PodSpec → Outcome PodSpec
unfolding container_of config_affinity config_envs config_probe
add_container read_env s pod = do
  envs ← or_panic (config_envs read_env s)
  liveness ← config_probe s.health_checks.liveness
  readiness ← config_probe s.health_checks.readiness
  ok (record pod {
    containers = pod.containers ++ container_of s envs liveness readiness ∷ [];
    image_pull_secrets =
        if s.image_pull_secret == []
        then pod.image_pull_secrets
        else pod.image_pull_secrets ++ s.image_pull_secret ∷ [];
    affinity = config_affinity s;
  })

-- The first empty case is behind the guard of its caller; an error leaves no number.
unfoldable pub duration_str_to_seconds_int : (Text → Option ℤ) → Text → Outcome (Option ℤ)
duration_str_to_seconds_int seconds_of duration =
    if duration == []
    then ok none
    else elim (seconds_of duration) [ none ↦ err | some seconds ↦ ok (some seconds) ]

unfoldable pub seconds_or_none : Outcome (Option ℤ) → Option ℤ
seconds_or_none (ok seconds) = seconds
seconds_or_none o = none

unfoldable pub termination_grace_period_seconds :
    (Text → Option ℤ) → ServiceConfig → PodSpec → PodSpec
unfolding duration_str_to_seconds_int seconds_or_none
termination_grace_period_seconds seconds_of s pod =
    if s.stop_grace_period == [] then pod else record pod {
      termination_grace_period_seconds =
          seconds_or_none (duration_str_to_seconds_int seconds_of s.stop_grace_period);
    }

unfoldable pub set_ports : ServiceConfig → PodSpec → PodSpec
unfolding get_container_name config_ports
set_ports s pod = record pod {
  containers =
      map {A = Container}
        (λ c. if get_container_name s == c.name then record c { ports = config_ports s } else c)
        pod.containers;
}

unfoldable pub image_pull_policy : Text → ServiceConfig → PodSpec → Outcome PodSpec
unfolding get_image_pull_policy
image_pull_policy name s pod = do
  policy ← or_panic (get_image_pull_policy name s.image_pull_policy)
  ok (record pod {
    containers = map {A = Container} (λ c. record c { image_pull_policy = policy }) pod.containers;
  })

unfoldable pub restart_policy : Text → ServiceConfig → PodSpec → Outcome PodSpec
unfolding get_restart_policy
restart_policy name s pod = do
  restart ← or_panic (get_restart_policy name s.restart)
  ok (record pod { restart_policy = restart })

unfoldable pub host_name : ServiceConfig → PodSpec → PodSpec
host_name s pod = if s.host_name == [] then pod else record pod { hostname = s.host_name }

unfoldable pub domain_name : ServiceConfig → PodSpec → PodSpec
domain_name s pod = if s.domain_name == [] then pod else record pod { subdomain = s.domain_name }

unfoldable pub service_account_name : Text → PodSpec → PodSpec
service_account_name account pod = record pod { service_account_name = account }

unfoldable pub topology_spread_constraints : ServiceConfig → PodSpec → PodSpec
unfolding config_topology_spread_constraints
topology_spread_constraints s pod = record pod {
  topology_spread_constraints = config_topology_spread_constraints s;
}

-- ===== src/Loader/Mapping.antt =====
-- dockerComposeToKomposeMapping of pkg/loader/compose/compose.go, with parseResources and parseEnvFiles:
-- each service of the project becomes one of the data model.
pub mod Mapped
pub mod Named
mod Tests
use kompose.Base.{
  ℕ, Bool, true, false, ◌||◌, not, Option, none, some, List, [], ◌∷◌, Text, codes, ◌==◌,
  if◌then◌else◌,
}
use kompose.Base.Int.{ℤ}
use kompose.Base.Dict.{Dict, insert}
use kompose.Base.Outcome.{Outcome, ok, err, panic, ◌>>=◌}
use kompose.Kobject.{ServiceConfig, HealthCheck, HealthChecks}
use kompose.Kobject.Project.{KomposeObject}
use kompose.Kobject.Samples.{bare_service}
use kompose.Loader.Names.{parse_resource_name, normalize_service_names, normalize_container_names}
use kompose.Loader.Labels.{Cast, parse_kompose_labels}
use kompose.Loader.Ports.{load_ports}
use kompose.Loader.Volumes.{load_volumes, handle_volume}
use kompose.Loader.Placement.{load_placement}
use kompose.Loader.HealthChecks.{parse_health_check_readiness}
use kompose.Loader.Settings.{
  HealthCheckConfig, parse_health_check, parse_network, parse_environment, get_group_add,
}
use kompose.Loader.Project.{Resource, DeployConfig, BuildConfig, ComposeService, Project}

-- The import that needs no change; `bare_service` is the zero value of the struct.
unfoldable pub imported : ComposeService → ServiceConfig
unfolding parse_resource_name normalize_container_names
imported c = record bare_service {
  name = parse_resource_name c.name c.labels;
  image = c.image;
  working_dir = c.working_dir;
  annotations = c.labels;
  cap_add = c.cap_add;
  cap_drop = c.cap_drop;
  expose = c.expose;
  privileged = c.privileged;
  user = c.user;
  read_only = c.read_only;
  stdin = c.stdin_open;
  tty = c.tty;
  tmp_fs = c.tmpfs;
  container_name = normalize_container_names c.container_name;
  command = c.entrypoint;
  args = c.command;
  labels = c.labels;
  host_name = c.hostname;
  domain_name = c.domain_name;
  secrets = c.secrets;
  network_mode = c.network_mode;
  stop_grace_period = elim c.stop_grace_period [ none ↦ [] | some period ↦ period ];
}

-- With its networks and its restart policy.
unfoldable pub start_of : Project → ComposeService → ServiceConfig
unfolding imported parse_network
start_of project c = record (imported c) {
  network = parse_network project.networks c.networks;
  restart = c.restart;
}

-- deploy.resources.limits and deploy.resources.reservations
unfoldable pub with_limits : Option Resource → ServiceConfig → ServiceConfig
with_limits none s = s
with_limits (some r) s = record s {
  mem_limit = r.memory_bytes;
  cpu_limit = if r.nano_cpus.is_positive then r.nano_cpus.milli else s.cpu_limit;
}

unfoldable pub with_reservations : Option Resource → ServiceConfig → ServiceConfig
with_reservations none s = s
with_reservations (some r) s = record s {
  mem_reservation = r.memory_bytes;
  cpu_reservation = if r.nano_cpus.is_positive then r.nano_cpus.milli else s.cpu_reservation;
}

unfoldable pub parse_resources : ComposeService → ServiceConfig → ServiceConfig
unfolding with_limits with_reservations
parse_resources c s =
    let limited : ServiceConfig = record s { mem_limit = c.mem_limit } in
    elim c.deploy [
      | none ↦ limited
      | some d ↦ with_reservations d.reservations (with_limits d.limits limited)
    ]

-- The keys under `deploy`.
unfoldable pub with_deploy : Option DeployConfig → ServiceConfig → ServiceConfig
unfolding load_placement
with_deploy none s = s
with_deploy (some d) s = record s {
  deploy_mode = d.mode;
  deploy_labels = d.labels;
  restart = elim d.restart_condition [ none ↦ s.restart | some condition ↦ condition ];
  replicas = elim d.replicas [ none ↦ s.replicas | some n ↦ n ];
  placement = load_placement d.constraints d.preferences;
  deploy_update_config = elim d.update_config [
    | none ↦ s.deploy_update_config
    | some update ↦ update
  ];
  service_type = if d.endpoint_mode == codes "vip" then codes "NodePort" else s.service_type;
}

unfoldable pub with_build : Option BuildConfig → ServiceConfig → ServiceConfig
with_build none s = s
with_build (some b) s = record s {
  build = b.context;
  dockerfile = b.dockerfile;
  build_args = b.args;
  build_labels = b.labels;
  build_target = b.target;
}

-- unless-stopped is taken for always.
unfoldable pub known_restart : Text → Text
known_restart restart = if restart == codes "unless-stopped" then codes "always" else restart

-- The name under which a service is kept.
unfoldable pub key_of : ComposeService → Text
unfolding normalize_service_names parse_resource_name
key_of c = normalize_service_names (parse_resource_name c.name c.labels)

module _ (cast : Cast) (split_words : Text → List Text) (seconds_of : Text → Option ℤ)
    (lookup_env : Text → Option Text) where
  unfoldable pub liveness_of : ComposeService → Outcome HealthCheck
  unfolding parse_health_check
  liveness_of c = elim c.health_check [
    | none ↦ ok bare_service.health_checks.liveness
    | some check ↦
        if check.disable
        then ok bare_service.health_checks.liveness
        else parse_health_check cast check c.labels
  ]

  unfoldable pub readiness_of : ComposeService → Outcome HealthCheck
  unfolding parse_health_check_readiness
  readiness_of c = do
    check ← parse_health_check_readiness cast split_words seconds_of c.labels
    ok (if check.disable then bare_service.health_checks.readiness else check)

  -- What the labels are read on.
  unfoldable pub with_settings : Project → ComposeService → HealthChecks → ServiceConfig
  unfolding start_of parse_resources with_deploy known_restart with_build parse_environment
      load_ports load_volumes
  with_settings project c checks =
      let s : ServiceConfig = with_deploy c.deploy (parse_resources c (start_of project c)) in
      let built : ServiceConfig =
        with_build c.build (record s { restart = known_restart s.restart }) in
      record built {
        health_checks = checks;
        environment = parse_environment lookup_env c.environment;
        env_file = c.env_files;
        port = load_ports cast c.ports c.expose;
        vol_list = load_volumes c.volumes;
      }

  unfoldable pub map_service : Project → ComposeService → Outcome ServiceConfig
  unfolding liveness_of readiness_of with_settings parse_kompose_labels get_group_add
  map_service project c = do
    liveness ← liveness_of c
    readiness ← readiness_of c
    labelled ←
        parse_kompose_labels cast c.labels
          (with_settings project c (record { liveness = liveness; readiness = readiness }))
    groups ← get_group_add c.group_add
    ok (record labelled {
      configs = c.configs;
      configs_meta_data = project.configs;
      group_add = groups;
    })

  -- The loop over the services.
  unfoldable pub map_services :
      Project → List ComposeService → Dict ServiceConfig → Outcome (Dict ServiceConfig)
  unfolding map_service key_of
  map_services project [] mapped = ok mapped
  map_services project (c ∷ services) mapped = do
    s ← map_service project c
    map_services project services (insert (key_of c) s mapped)

  unfoldable pub docker_compose_to_kompose_mapping : ℕ → Project → Outcome KomposeObject
  unfolding map_services handle_volume
  docker_compose_to_kompose_mapping fuel project = do
    mapped ← map_services project project.services []
    handled ← handle_volume fuel mapped project.volumes
    ok (record {
      service_configs = handled;
      loaded_from = codes "compose";
      secrets = project.secrets;
      namespace = [];
    })

-- ===== src/Kobject/Samples.antt =====
-- A service without settings and options without flags, for the tests.
use kompose.Base.{[], false, none}
use kompose.Base.Int.{pos}
use kompose.Kobject.{
  HealthCheck, HealthChecks, Placement, UpdateConfig, ServiceConfig, ConvertOptions,
}

abbrev pub no_update : UpdateConfig
no_update = record { parallelism = none; delay = pos 0; order = [] }

abbrev pub no_check : HealthCheck
no_check = record {
  test = none;
  timeout = pos 0;
  interval = pos 0;
  retries = pos 0;
  start_period = pos 0;
  disable = false;
  http_path = [];
  http_port = pos 0;
  tcp_port = pos 0;
}

abbrev pub no_checks : HealthChecks
no_checks = record { liveness = no_check; readiness = no_check }

abbrev pub no_placement : Placement
no_placement = record { positive_constraints = []; negative_constraints = []; preferences = [] }

abbrev pub bare_service : ServiceConfig
bare_service = record {
  name = [];
  container_name = [];
  image = [];
  environment = [];
  env_file = [];
  port = [];
  command = [];
  working_dir = [];
  domain_name = [];
  host_name = [];
  read_only = false;
  args = [];
  vol_list = [];
  network_mode = [];
  network = [];
  labels = [];
  annotations = [];
  cpu_set = [];
  cpu_shares = pos 0;
  cpu_quota = pos 0;
  cpu_limit = pos 0;
  cpu_reservation = pos 0;
  cap_add = [];
  cap_drop = [];
  expose = [];
  image_pull_policy = [];
  pid = [];
  privileged = false;
  restart = [];
  user = [];
  volumes_from = [];
  service_type = [];
  service_external_traffic_policy = [];
  node_port_port = pos 0;
  stop_grace_period = [];
  build = [];
  build_args = [];
  expose_container_to_host = false;
  expose_service = [];
  expose_service_path = [];
  build_labels = [];
  build_target = [];
  expose_service_tls = [];
  expose_service_ingress_class_name = [];
  image_pull_secret = [];
  stdin = false;
  tty = false;
  mem_limit = pos 0;
  mem_reservation = pos 0;
  deploy_mode = [];
  volume_mount_sub_path = [];
  deploy_labels = [];
  deploy_update_config = no_update;
  tmp_fs = [];
  dockerfile = [];
  replicas = pos 0;
  group_add = [];
  fs_group = pos 0;
  cron_job_schedule = [];
  cron_job_concurrency_policy = [];
  cron_job_backoff_limit = none;
  volumes = [];
  secrets = [];
  health_checks = no_checks;
  placement = no_placement;
  configs = [];
  configs_meta_data = [];
  with_kompose_annotation = false;
  in_group = false;
}

abbrev pub bare_options : ConvertOptions
bare_options = record {
  to_stdout = false;
  create_d = false;
  create_rc = false;
  create_ds = false;
  create_deployment_config = false;
  build_repo = [];
  build_branch = [];
  build = [];
  profiles = [];
  push_image = false;
  push_image_registry = [];
  create_chart = false;
  generate_yaml = false;
  generate_json = false;
  store_manifest = false;
  empty_vols = false;
  volumes = [];
  pvc_request_size = [];
  insecure_repository = false;
  replicas = pos 0;
  input_files = [];
  out_file = [];
  provider = [];
  namespace = [];
  controller = [];
  is_deployment_flag = false;
  is_daemon_set_flag = false;
  is_replication_controller_flag = false;
  is_replica_set_flag = false;
  is_deployment_config_flag = false;
  is_namespace_flag = false;
  build_command = [];
  push_command = [];
  server = [];
  yaml_indent = pos 0;
  with_kompose_annotation = false;
  multiple_container_mode = false;
  service_group_mode = [];
  service_group_name = [];
  secrets_as_files = false;
  generate_network_policies = false;
  no_interpolate = false;
}

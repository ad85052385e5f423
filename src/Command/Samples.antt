-- ===== src/Command/Samples.antt =====
-- The flags of a command line that asks for several containers in a pod, and a file system.
use kompose.Base.{Bool, true, false, [], Text, codes, ◌==◌}
use kompose.Base.Int.{pos}
use kompose.App.{FlagSet, provider_kubernetes}
use kompose.Command.{Flags}

abbrev pub no_flags : FlagSet
no_flags = record {
  provider = provider_kubernetes;
  deployment_config = false;
  build_repo = false;
  build_branch = false;
  chart = false;
  daemon_set = false;
  replication_controller = false;
  deployment = false;
}

abbrev pub flags : Flags
flags = record {
  out = [];
  build_repo = [];
  build_branch = [];
  build = codes "none";
  volumes = codes "persistentVolumeClaim";
  pvc_request_size = [];
  chart = false;
  deployment = false;
  daemon_set = false;
  replication_controller = false;
  yaml = false;
  json = false;
  stdout = false;
  empty_vols = false;
  insecure_repo = false;
  deployment_config = true;
  replicas = pos 1;
  controller = [];
  profiles = [];
  push_image = false;
  namespace = [];
  push_image_registry = [];
  yaml_indent = pos 2;
  generate_network_policies = false;
  up_build = [];
  build_command = [];
  push_command = [];
  with_kompose_annotation = true;
  no_interpolate = false;
  multiple_container_mode = true;
  service_group_mode = [];
  service_group_name = [];
  secrets_as_files = false;
  global_files = [];
  global_provider = provider_kubernetes;
  replicas_changed = false;
}

abbrev pub compose_here : Text → Bool
compose_here name = name == codes "compose.yaml"

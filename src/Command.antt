-- ===== src/Command.antt =====
-- The command `kompose convert` (cmd/convert.go): the options that PreRun makes of the flags, and its
-- checks. An error ends the program.
pub mod Accepted
pub mod Run
pub mod Samples
mod Tests
use kompose.Base.{
  ℕ, Bool, true, false, ◌&&◌, not, List, [], Text, codes, ◌==◌, lower, if◌then◌else◌,
}
use kompose.Base.Int.{ℤ}
use kompose.Base.Outcome.{Outcome, ok, err, ◌>>=◌}
use kompose.Kobject.{ConvertOptions}
use kompose.App.{
  FlagSet, provider_kubernetes, validate_flags, validate_compose_file, default_compose_files,
}

-- The variables that the flags write. The values of the flag set's `Changed` are in FlagSet, those of
-- --replicas here.
pub record Flags : Type 0 where
  pub out : Text
  pub build_repo : Text
  pub build_branch : Text
  pub build : Text
  pub volumes : Text
  pub pvc_request_size : Text
  pub chart : Bool
  pub deployment : Bool
  pub daemon_set : Bool
  pub replication_controller : Bool
  pub yaml : Bool
  pub json : Bool
  pub stdout : Bool
  pub empty_vols : Bool
  pub insecure_repo : Bool
  pub deployment_config : Bool
  pub replicas : ℤ
  pub controller : Text
  pub profiles : List Text
  pub push_image : Bool
  pub namespace : Text
  pub push_image_registry : Text
  pub yaml_indent : ℤ
  pub generate_network_policies : Bool
  pub up_build : Text
  pub build_command : Text
  pub push_command : Text
  pub with_kompose_annotation : Bool
  pub no_interpolate : Bool
  pub multiple_container_mode : Bool
  pub service_group_mode : Text
  pub service_group_name : Text
  pub secrets_as_files : Bool
  pub global_files : List Text
  pub global_provider : Text
  pub replicas_changed : Bool

unfoldable pub options_of : Flags → FlagSet → ConvertOptions
unfolding lower
options_of v f = record {
  to_stdout = v.stdout;
  create_d = v.deployment;
  create_rc = v.replication_controller;
  create_ds = v.daemon_set;
  create_deployment_config = v.deployment_config;
  build_repo = v.build_repo;
  build_branch = v.build_branch;
  build = v.build;
  profiles = v.profiles;
  push_image = v.push_image;
  push_image_registry = v.push_image_registry;
  create_chart = v.chart;
  generate_yaml = v.yaml;
  generate_json = v.json;
  store_manifest = false;
  empty_vols = v.empty_vols;
  volumes = v.volumes;
  pvc_request_size = v.pvc_request_size;
  insecure_repository = v.insecure_repo;
  replicas = v.replicas;
  input_files = v.global_files;
  out_file = v.out;
  provider = v.global_provider;
  namespace = v.namespace;
  controller = lower v.controller;
  is_deployment_flag = f.deployment;
  is_daemon_set_flag = f.daemon_set;
  is_replication_controller_flag = f.replication_controller;
  is_replica_set_flag = v.replicas_changed;
  is_deployment_config_flag = f.deployment_config;
  is_namespace_flag = false;
  build_command = v.build_command;
  push_command = v.push_command;
  server = [];
  yaml_indent = v.yaml_indent;
  with_kompose_annotation = v.with_kompose_annotation;
  multiple_container_mode = v.multiple_container_mode;
  service_group_mode =
      if v.service_group_mode == [] && v.multiple_container_mode
      then codes "label"
      else v.service_group_mode;
  service_group_name = v.service_group_name;
  secrets_as_files = v.secrets_as_files;
  generate_network_policies = v.generate_network_policies;
  no_interpolate = v.no_interpolate;
}

unfoldable pub check_options :
    (Text → Bool) → List Text → FlagSet → ConvertOptions → Outcome ConvertOptions
unfolding validate_flags validate_compose_file
check_options exists args f options = do
  opt ← validate_flags args f options
  validate_compose_file exists default_compose_files opt

unfoldable pub pre_run : (Text → Bool) → List Text → FlagSet → Flags → Outcome ConvertOptions
unfolding options_of check_options
pre_run exists args f v =
    if v.global_provider == provider_kubernetes && v.up_build == codes "build-config"
    then err
    else check_options exists args f (options_of v f)

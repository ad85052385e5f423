-- ===== src/Kobject.antt =====
-- pkg/kobject/kobject.go: the data that the loader hands to the transformers. A Go string is a
-- `Text`, an int32 or int64 a `ℤ`, a pointer an `Option`, a map a `Dict`.
pub mod Update
pub mod Samples
pub mod Project
mod Tests
use kompose.Base.{ℕ, Bool, List, Option, Text, ◌||◌, not, ◌==◌, [], ◌++◌}
use kompose.Base.Int.{ℤ}
use kompose.Base.Dict.{Dict}
use kompose.Base.Decimal.{itoa}

pub record EnvVar : Type 0 where
  pub name : Text
  pub value : Text

pub record Ports : Type 0 where
  pub host_port : ℤ
  pub container_port : ℤ
  pub host_ip : Text
  pub protocol : Text

-- The id of a port setting.
unfoldable pub port_id : Ports → Text
unfolding itoa
port_id p = itoa p.container_port ++ p.protocol

pub record Volumes : Type 0 where
  pub svc_name : Text
  pub mount_path : Text
  pub v_from : Text
  pub volume_name : Text
  pub host : Text
  pub container : Text
  pub mode : Text
  pub pvc_name : Text
  pub pvc_size : Text
  pub selector_value : Text

pub record Placement : Type 0 where
  pub positive_constraints : Dict Text
  pub negative_constraints : Dict Text
  pub preferences : List Text

pub record HealthCheck : Type 0 where
  pub test : Option (List Text)
  pub timeout : ℤ
  pub interval : ℤ
  pub retries : ℤ
  pub start_period : ℤ
  pub disable : Bool
  pub http_path : Text
  pub http_port : ℤ
  pub tcp_port : ℤ

pub record HealthChecks : Type 0 where
  pub liveness : HealthCheck
  pub readiness : HealthCheck

-- Of types.UpdateConfig, what the program reads; the delay is in nanoseconds.
pub record UpdateConfig : Type 0 where
  pub parallelism : Option ℕ
  pub delay : ℤ
  pub order : Text

-- types.ServiceSecretConfig and types.ServiceConfigObjConfig, a mounted secret or config
pub record FileReference : Type 0 where
  pub source : Text
  pub target : Text
  pub uid : Text
  pub gid : Text
  pub mode : Option ℕ

-- types.ConfigObjConfig, a config that the project declares
pub record ConfigObject : Type 0 where
  pub file : Text
  pub external : Bool
  pub content : Text
  pub environment : Text

pub record ServiceConfig : Type 0 where
  pub name : Text
  pub container_name : Text
  pub image : Text
  pub environment : List EnvVar
  pub env_file : List Text
  pub port : List Ports
  pub command : List Text
  pub working_dir : Text
  pub domain_name : Text
  pub host_name : Text
  pub read_only : Bool
  pub args : List Text
  pub vol_list : List Text
  pub network_mode : Text
  pub network : List Text
  pub labels : Dict Text
  pub annotations : Dict Text
  pub cpu_set : Text
  pub cpu_shares : ℤ
  pub cpu_quota : ℤ
  pub cpu_limit : ℤ
  pub cpu_reservation : ℤ
  pub cap_add : List Text
  pub cap_drop : List Text
  pub expose : List Text
  pub image_pull_policy : Text
  pub pid : Text
  pub privileged : Bool
  pub restart : Text
  pub user : Text
  pub volumes_from : List Text
  pub service_type : Text
  pub service_external_traffic_policy : Text
  pub node_port_port : ℤ
  pub stop_grace_period : Text
  pub build : Text
  pub build_args : Dict (Option Text)
  pub expose_container_to_host : Bool
  pub expose_service : Text
  pub expose_service_path : Text
  pub build_labels : Dict Text
  pub build_target : Text
  pub expose_service_tls : Text
  pub expose_service_ingress_class_name : Text
  pub image_pull_secret : Text
  pub stdin : Bool
  pub tty : Bool
  pub mem_limit : ℤ
  pub mem_reservation : ℤ
  pub deploy_mode : Text
  pub volume_mount_sub_path : Text
  pub deploy_labels : Dict Text
  pub deploy_update_config : UpdateConfig
  pub tmp_fs : List Text
  pub dockerfile : Text
  pub replicas : ℤ
  pub group_add : List ℤ
  pub fs_group : ℤ
  pub cron_job_schedule : Text
  pub cron_job_concurrency_policy : Text
  pub cron_job_backoff_limit : Option ℤ
  pub volumes : List Volumes
  pub secrets : List FileReference
  pub health_checks : HealthChecks
  pub placement : Placement
  pub configs : List FileReference
  pub configs_meta_data : Dict ConfigObject
  pub with_kompose_annotation : Bool
  pub in_group : Bool

pub record ConvertOptions : Type 0 where
  pub to_stdout : Bool
  pub create_d : Bool
  pub create_rc : Bool
  pub create_ds : Bool
  pub create_deployment_config : Bool
  pub build_repo : Text
  pub build_branch : Text
  pub build : Text
  pub profiles : List Text
  pub push_image : Bool
  pub push_image_registry : Text
  pub create_chart : Bool
  pub generate_yaml : Bool
  pub generate_json : Bool
  pub store_manifest : Bool
  pub empty_vols : Bool
  pub volumes : Text
  pub pvc_request_size : Text
  pub insecure_repository : Bool
  pub replicas : ℤ
  pub input_files : List Text
  pub out_file : Text
  pub provider : Text
  pub namespace : Text
  pub controller : Text
  pub is_deployment_flag : Bool
  pub is_daemon_set_flag : Bool
  pub is_replication_controller_flag : Bool
  pub is_replica_set_flag : Bool
  pub is_deployment_config_flag : Bool
  pub is_namespace_flag : Bool
  pub build_command : Text
  pub push_command : Text
  pub server : Text
  pub yaml_indent : ℤ
  pub with_kompose_annotation : Bool
  pub multiple_container_mode : Bool
  pub service_group_mode : Text
  pub service_group_name : Text
  pub secrets_as_files : Bool
  pub generate_network_policies : Bool
  pub no_interpolate : Bool

-- The user asked for a controller.
unfoldable pub is_pod_controller : ConvertOptions → Bool
is_pod_controller opt =
    opt.is_deployment_flag
    || opt.is_daemon_set_flag
    || opt.is_replication_controller_flag
    || not (opt.controller == [])

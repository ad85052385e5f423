-- ===== src/Loader/Project.antt =====
-- What the loader reads of a compose project (types.Project of the compose library).
use kompose.Base.{Bool, Option, List, Text}
use kompose.Base.Int.{ℤ}
use kompose.Base.Dict.{Dict}
use kompose.Kobject.{UpdateConfig, FileReference, ConfigObject}
use kompose.Loader.Ports.{ServicePortConfig}
use kompose.Loader.Settings.{HealthCheckConfig}
use kompose.Loader.Volumes.{ServiceVolumeConfig}

-- types.NanoCPUs, a float32: whether it is positive, and a thousand times its value as an int64.
pub record NanoCpus : Type 0 where
  pub is_positive : Bool
  pub milli : ℤ

-- types.Resource
pub record Resource : Type 0 where
  pub memory_bytes : ℤ
  pub nano_cpus : NanoCpus

-- types.DeployConfig
pub record DeployConfig : Type 0 where
  pub mode : Text
  pub labels : Dict Text
  pub restart_condition : Option Text
  pub replicas : Option ℤ
  pub constraints : List Text
  pub preferences : List Text
  pub update_config : Option UpdateConfig
  pub endpoint_mode : Text
  pub limits : Option Resource
  pub reservations : Option Resource

-- types.BuildConfig
pub record BuildConfig : Type 0 where
  pub context : Text
  pub dockerfile : Text
  pub args : Dict (Option Text)
  pub labels : Dict Text
  pub target : Text

-- types.ServiceConfig. A grace period is its text, a network its alias.
pub record ComposeService : Type 0 where
  pub name : Text
  pub image : Text
  pub working_dir : Text
  pub labels : Dict Text
  pub cap_add : List Text
  pub cap_drop : List Text
  pub expose : List Text
  pub privileged : Bool
  pub user : Text
  pub read_only : Bool
  pub stdin_open : Bool
  pub tty : Bool
  pub tmpfs : List Text
  pub container_name : Text
  pub entrypoint : List Text
  pub command : List Text
  pub hostname : Text
  pub domain_name : Text
  pub secrets : List FileReference
  pub network_mode : Text
  pub stop_grace_period : Option Text
  pub networks : List Text
  pub mem_limit : ℤ
  pub restart : Text
  pub deploy : Option DeployConfig
  pub health_check : Option HealthCheckConfig
  pub build : Option BuildConfig
  pub environment : Dict (Option Text)
  pub env_files : List Text
  pub ports : List ServicePortConfig
  pub volumes : List ServiceVolumeConfig
  pub configs : List FileReference
  pub group_add : List Text

-- types.Project: a network is its name, a volume its labels, a secret its file. The services stand in
-- the order in which their map is visited.
pub record Project : Type 0 where
  pub services : List ComposeService
  pub networks : Dict Text
  pub volumes : Dict (Dict Text)
  pub secrets : Dict Text
  pub configs : Dict ConfigObject

-- ===== src/Kubernetes/Types/Pods.antt =====
-- The pods of the Kubernetes API (k8s.io/api), cut to the fields that the transformer writes.
use kompose.Base.{Bool, Text, List, Option}
use kompose.Base.Int.{ℤ}
use kompose.Base.Dict.{Dict}
use kompose.Kobject.{EnvVar}
use kompose.Kubernetes.Ports.{ContainerPort}

-- metav1.ObjectMeta
pub record ObjectMeta : Type 0 where
  pub name : Text
  pub namespace : Text
  pub labels : Dict Text
  pub annotations : Dict Text

-- api.KeyToPath
pub record KeyToPath : Type 0 where
  pub key : Text
  pub path : Text

-- api.VolumeSource
pub data VolumeSource : Type 0 where
  empty_dir : Text → VolumeSource
  secret : Text → List KeyToPath → Option ℤ → VolumeSource
  config_map : Text → List KeyToPath → Option ℤ → VolumeSource
  persistent_volume_claim : Text → Bool → VolumeSource
  host_path : Text → VolumeSource

-- api.Volume
pub record Volume : Type 0 where
  pub name : Text
  pub source : VolumeSource

-- api.VolumeMount
pub record VolumeMount : Type 0 where
  pub name : Text
  pub read_only : Bool
  pub mount_path : Text
  pub sub_path : Text

-- api.ProbeHandler
pub data ProbeHandler : Type 0 where
  exec : List Text → ProbeHandler
  http_get : Text → ℤ → ProbeHandler
  tcp_socket : ℤ → ProbeHandler

-- api.Probe
pub record Probe : Type 0 where
  pub handler : ProbeHandler
  pub timeout_seconds : ℤ
  pub period_seconds : ℤ
  pub failure_threshold : ℤ
  pub initial_delay_seconds : ℤ

-- api.SecurityContext
pub record SecurityContext : Type 0 where
  pub privileged : Option Bool
  pub run_as_user : Option ℤ
  pub run_as_group : Option ℤ
  pub read_only_root_filesystem : Option Bool
  pub capabilities : Option (List Text × List Text)

-- api.PodSecurityContext
pub record PodSecurityContext : Type 0 where
  pub supplemental_groups : List ℤ
  pub fs_group : Option ℤ

-- api.ResourceList: memory in bytes, and millicpus
pub record ResourceList : Type 0 where
  pub memory : Option ℤ
  pub cpu : Option ℤ
  pub ephemeral_storage : Option Text

-- api.Container
pub record Container : Type 0 where
  pub name : Text
  pub image : Text
  pub env : List EnvVar
  pub env_from : List Text
  pub command : List Text
  pub args : List Text
  pub working_dir : Text
  pub stdin : Bool
  pub tty : Bool
  pub ports : List ContainerPort
  pub volume_mounts : List VolumeMount
  pub limits : Option ResourceList
  pub requests : Option ResourceList
  pub liveness_probe : Option Probe
  pub readiness_probe : Option Probe
  pub security_context : Option SecurityContext
  pub image_pull_policy : Text

-- api.NodeSelectorRequirement
pub record NodeSelectorRequirement : Type 0 where
  pub key : Text
  pub operator : Text
  pub values : List Text

-- api.TopologySpreadConstraint
pub record TopologySpreadConstraint : Type 0 where
  pub max_skew : ℤ
  pub topology_key : Text
  pub when_unsatisfiable : Text
  pub match_labels : Dict Text

-- api.PodSpec
pub record PodSpec : Type 0 where
  pub containers : List Container
  pub init_containers : List Container
  pub volumes : List Volume
  pub image_pull_secrets : List Text
  pub affinity : Option (List NodeSelectorRequirement)
  pub topology_spread_constraints : List TopologySpreadConstraint
  pub termination_grace_period_seconds : Option ℤ
  pub security_context : Option PodSecurityContext
  pub restart_policy : Text
  pub hostname : Text
  pub subdomain : Text
  pub service_account_name : Text

-- api.PodTemplateSpec
pub record PodTemplateSpec : Type 0 where
  pub labels : Dict Text
  pub annotations : Dict Text
  pub spec : PodSpec

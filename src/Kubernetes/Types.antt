-- ===== src/Kubernetes/Types.antt =====
-- The objects of the Kubernetes API (k8s.io/api) and of the OpenShift API that the transformers
-- write, cut to the fields that they set.
mod Pods
pub use Pods.*
use kompose.Base.{Bool, Text, List, Option}
use kompose.Base.Int.{ℤ}
use kompose.Base.Dict.{Dict}
use kompose.Kobject.{EnvVar}
use kompose.Kobject.Update.{RollingUpdate, RollingParams}
use kompose.Kubernetes.Ports.{ServicePort}

-- api.ServiceSpec
pub record ServiceSpec : Type 0 where
  pub selector : Dict Text
  pub ports : List ServicePort
  pub service_type : Text
  pub cluster_ip : Text
  pub external_traffic_policy : Text

-- hpa.MetricSpec: the resource and its average utilization
pub record MetricSpec : Type 0 where
  pub resource : Text
  pub average_utilization : ℤ

-- hpa.HorizontalPodAutoscalerSpec, with its scale target
pub record HpaSpec : Type 0 where
  pub target_kind : Text
  pub target_name : Text
  pub target_api_version : Text
  pub min_replicas : ℤ
  pub max_replicas : ℤ
  pub metrics : List MetricSpec

-- appsv1.DeploymentSpec, with its strategy
pub record DeploymentSpec : Type 0 where
  pub replicas : ℤ
  pub strategy_type : Text
  pub rolling_update : Option RollingUpdate
  pub selector : Dict Text
  pub template : PodTemplateSpec

-- appsv1.DaemonSetSpec
pub record DaemonSetSpec : Type 0 where
  pub selector : Dict Text
  pub template : PodTemplateSpec

-- api.PersistentVolumeClaimSpec; a quantity is its text
pub record ClaimSpec : Type 0 where
  pub storage : Text
  pub match_labels : Option (Dict Text)
  pub access_modes : List Text
  pub storage_class_name : Option Text

-- api.PersistentVolumeClaim
pub record Claim : Type 0 where
  pub api_version : Text
  pub kind : Text
  pub meta : ObjectMeta
  pub spec : ClaimSpec

-- appsv1.StatefulSetSpec
pub record StatefulSetSpec : Type 0 where
  pub replicas : ℤ
  pub service_name : Text
  pub selector : Dict Text
  pub template : PodTemplateSpec
  pub volume_claim_templates : List Claim

-- batchv1.CronJobSpec, with its job template
pub record CronJobSpec : Type 0 where
  pub schedule : Text
  pub concurrency_policy : Text
  pub backoff_limit : Option ℤ
  pub template : PodTemplateSpec

-- networkingv1.IngressRule with its one path
pub record IngressRule : Type 0 where
  pub host : Text
  pub path : Text
  pub path_type : Text
  pub service_name : Text
  pub service_port : ℤ

-- networkingv1.IngressTLS
pub record IngressTls : Type 0 where
  pub hosts : List Text
  pub secret_name : Text

-- networkingv1.IngressSpec
pub record IngressSpec : Type 0 where
  pub rules : List IngressRule
  pub tls : List IngressTls
  pub ingress_class_name : Option Text

-- What the API server holds in api.ConfigMap
pub record ConfigMapData : Type 0 where
  pub data_entries : Dict Text
  pub binary_data : Dict Text

-- deployapi.DeploymentConfigSpec; the second trigger is a change of the image of the containers
pub record DeploymentConfigSpec : Type 0 where
  pub replicas : ℤ
  pub strategy_type : Text
  pub rolling_params : Option RollingParams
  pub selector : Dict Text
  pub template : PodTemplateSpec
  pub container_names : List Text
  pub from_image : Text

-- imageapi.TagReference
pub record TagReference : Type 0 where
  pub from_image : Text
  pub insecure : Bool
  pub name : Text

-- buildapi.BuildConfigSpec: a git source, a docker strategy and the image that it makes
pub record BuildConfigSpec : Type 0 where
  pub git_ref : Text
  pub git_uri : Text
  pub context_dir : Text
  pub dockerfile_path : Text
  pub env : List EnvVar
  pub output_image : Text

-- routeapi.RouteSpec
pub record RouteSpec : Type 0 where
  pub host : Text
  pub target_port : ℤ
  pub to_name : Text

-- What stands under an object's metadata, by the object's Go type. A network policy has the labels
-- of its pods and those of the pods that may reach them; a secret has its type.
pub data ObjectBody : Type 0 where
  deployment : DeploymentSpec → ObjectBody
  daemon_set : DaemonSetSpec → ObjectBody
  stateful_set : StatefulSetSpec → ObjectBody
  cron_job : CronJobSpec → ObjectBody
  pod : PodSpec → ObjectBody
  service : ServiceSpec → ObjectBody
  ingress : IngressSpec → ObjectBody
  horizontal_pod_autoscaler : HpaSpec → ObjectBody
  network_policy : Dict Text → Dict Text → ObjectBody
  config_map_data : ConfigMapData → ObjectBody
  persistent_volume_claim_spec : ClaimSpec → ObjectBody
  secret_data : Text → Dict Text → ObjectBody
  namespace_only : ObjectBody
  deployment_config : DeploymentConfigSpec → ObjectBody
  image_stream : List TagReference → ObjectBody
  build_config : BuildConfigSpec → ObjectBody
  route : RouteSpec → ObjectBody

-- runtime.Object: group, version and kind, and the metadata; all of the program's objects have some
pub record RuntimeObject : Type 0 where
  pub api_version : Text
  pub kind : Text
  pub meta : ObjectMeta
  pub body : ObjectBody

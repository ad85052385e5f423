-- ===== src/Kubernetes/Hpa.antt =====
-- The horizontal pod autoscaler of pkg/transformer/kubernetes/k8sutils.go, from the labels of a
-- service. `int` is an int64.
pub mod Bounds
use kompose.Base.{
  ℕ, Bool, true, false, ◌||◌, Option, none, some, List, [], ◌∷◌, ◌++◌, Text, codes, ltb,
  if◌then◌else◌,
}
use kompose.Base.Int.{ℤ, pos, negsuc, ltb_ℤ, to_int32}
use kompose.Base.Decimal.{atoi}
use kompose.Base.Dict.{Dict, lookup, get_text}
use kompose.Kobject.{ServiceConfig}
use kompose.Kubernetes.Types.{
  MetricSpec, HpaSpec, RuntimeObject, ObjectMeta, horizontal_pod_autoscaler,
}

abbrev pub default_min_replicas : ℤ
default_min_replicas = pos 1

abbrev pub default_max_replicas : ℤ
default_max_replicas = pos 3

abbrev pub default_cpu_utilization : ℤ
default_cpu_utilization = pos 50

abbrev pub default_memory_utilization : ℤ
default_memory_utilization = pos 70

abbrev pub label_hpa_min_replicas : Text
label_hpa_min_replicas = codes "kompose.hpa.replicas.min"

abbrev pub label_hpa_max_replicas : Text
label_hpa_max_replicas = codes "kompose.hpa.replicas.max"

abbrev pub label_hpa_cpu : Text
label_hpa_cpu = codes "kompose.hpa.cpu"

abbrev pub label_hpa_memory : Text
label_hpa_memory = codes "kompose.hpa.memory"

abbrev pub label_keys : List Text
label_keys = label_hpa_cpu ∷ label_hpa_memory ∷ label_hpa_min_replicas ∷ label_hpa_max_replicas ∷ []

pub record HpaValues : Type 0 where
  pub min_replicas : ℤ
  pub max_replicas : ℤ
  pub cpu_utilization : ℤ
  pub memory_utilization : ℤ

-- One of the keys is a label.
unfoldable pub search_keys : List Text → Dict Text → Bool
unfolding lookup
search_keys [] labels = false
search_keys (k ∷ keys) labels =
    let rest = search_keys keys labels in elim (lookup k labels) [ none ↦ rest | some _ ↦ true ]

unfoldable pub search_hpa_values : Dict Text → Bool
unfolding search_keys
search_hpa_values labels = search_keys label_keys labels

-- A value that fits int64 is converted to int32, which may wrap around.
unfoldable pub hpa_value_of : Option ℤ → ℤ → ℤ
hpa_value_of none default = default
hpa_value_of (some v) default = if ltb_ℤ v (pos 0) then default else to_int32 v

unfoldable pub get_hpa_value : ServiceConfig → Text → ℤ → ℤ
unfolding hpa_value_of get_text
get_hpa_value s label default = hpa_value_of (atoi (get_text label s.labels)) default

unfoldable pub validate_percentage_metric : ServiceConfig → Text → ℤ → ℤ
unfolding get_hpa_value
validate_percentage_metric s label default =
    let v = get_hpa_value s label default in
    if ltb_ℤ (pos 100) v || ltb_ℤ v (pos 1) then default else v

unfoldable pub get_resource_hpa_values : ServiceConfig → HpaValues
unfolding validate_percentage_metric
get_resource_hpa_values s =
    let min_replicas = get_hpa_value s label_hpa_min_replicas default_min_replicas in
    let max_replicas = get_hpa_value s label_hpa_max_replicas default_max_replicas in
    record {
      min_replicas = min_replicas;
      max_replicas = if ltb_ℤ max_replicas min_replicas then min_replicas else max_replicas;
      cpu_utilization = validate_percentage_metric s label_hpa_cpu default_cpu_utilization;
      memory_utilization = validate_percentage_metric s label_hpa_memory default_memory_utilization;
    }

unfoldable pub get_hpa_metric_spec : HpaValues → List MetricSpec
get_hpa_metric_spec v =
    (if ltb_ℤ (pos 0) v.cpu_utilization
      then record { resource = codes "cpu"; average_utilization = v.cpu_utilization } ∷ []
      else [])
    ++ (if ltb_ℤ (pos 0) v.memory_utilization
        then record { resource = codes "memory"; average_utilization = v.memory_utilization } ∷ []
        else [])

-- The autoscaler, and the service with its replicas reset.
unfoldable pub create_hpa_resources : Text → ServiceConfig → RuntimeObject × ServiceConfig
unfolding get_resource_hpa_values get_hpa_metric_spec
create_hpa_resources name s =
    let values = get_resource_hpa_values s in
    (
      record {
        api_version = codes "autoscaling/v2";
        kind = codes "HorizontalPodAutoscaler";
        meta = record { name = name; namespace = []; labels = []; annotations = [] };
        body = horizontal_pod_autoscaler (record {
          target_kind = codes "Deployment";
          target_name = name;
          target_api_version = codes "apps/v1";
          min_replicas = values.min_replicas;
          max_replicas = values.max_replicas;
          metrics = get_hpa_metric_spec values;
        });
      },
      record s { replicas = pos 0 },
    )

-- The service is a copy here, so its reset replicas are dropped.
unfoldable pub config_horizontal_pod_scaler :
    Text → ServiceConfig → List RuntimeObject → List RuntimeObject
unfolding search_hpa_values create_hpa_resources
config_horizontal_pod_scaler name s objects =
    if search_hpa_values s.labels then objects ++ (create_hpa_resources name s).0 ∷ [] else objects

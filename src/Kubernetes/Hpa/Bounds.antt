-- ===== src/Kubernetes/Hpa/Bounds.antt =====
-- The bounds of the autoscaler's values.
use kompose.Base.{ℕ, ◌-◌, ◌^◌, ◌≤◌, ◌<◌, ◌≡◌, some, [], ◌∷◌, arith, Text, codes}
use kompose.Base.Int.{pos, negsuc, ◌≤ℤ◌, to_int32}
use kompose.Base.Decimal.{atoi}
use kompose.Base.Dict.{get_text}
use kompose.Kobject.{ServiceConfig}
use kompose.Kubernetes.Hpa.{
  HpaValues, hpa_value_of, get_hpa_value, validate_percentage_metric, get_resource_hpa_values,
  get_hpa_metric_spec, label_hpa_min_replicas, label_hpa_cpu, label_hpa_memory,
}

-- A percentage that Kubernetes accepts, and replicas in order.
pub record IsScaled (v : HpaValues) : Type 0 where
  pub cpu : (pos 1 ≤ℤ v.cpu_utilization) × (v.cpu_utilization ≤ℤ pos 100)
  pub memory : (pos 1 ≤ℤ v.memory_utilization) × (v.memory_utilization ≤ℤ pos 100)
  pub replicas : v.min_replicas ≤ℤ v.max_replicas

percentage_bounds :
    (s : ServiceConfig) (label : Text) (n : ℕ)
    → 1 ≤ n
    → n ≤ 100
    → (pos 1 ≤ℤ validate_percentage_metric s label (pos n))
      × (validate_percentage_metric s label (pos n) ≤ℤ pos 100)
unfolding validate_percentage_metric
percentage_bounds s label n h k = ground arith

-- Whatever the labels, both utilizations lie in 1 to 100 and the least number of replicas is not
-- above the greatest.
pub get_resource_hpa_values-IsScaled : (s : ServiceConfig) → IsScaled (get_resource_hpa_values s)
unfolding get_resource_hpa_values
get_resource_hpa_values-IsScaled s = record {
  cpu = percentage_bounds s label_hpa_cpu 50 (omega arith) (omega arith);
  memory = percentage_bounds s label_hpa_memory 70 (omega arith) (omega arith);
  replicas = ground arith;
}

metric_spec_both :
    (v : HpaValues)
    → IsScaled v
    → get_hpa_metric_spec v
      ≡ record { resource = codes "cpu"; average_utilization = v.cpu_utilization }
        ∷ record { resource = codes "memory"; average_utilization = v.memory_utilization }
        ∷ []
unfolding get_hpa_metric_spec
metric_spec_both v h = ground arith

-- The autoscaler always has both metrics, cpu first.
pub get_hpa_metric_spec-both :
    (s : ServiceConfig)
    → get_hpa_metric_spec (get_resource_hpa_values s)
      ≡ record {
        resource = codes "cpu";
        average_utilization = (get_resource_hpa_values s).cpu_utilization;
      }
        ∷ record {
          resource = codes "memory";
          average_utilization = (get_resource_hpa_values s).memory_utilization;
        }
        ∷ []
get_hpa_metric_spec-both s =
    metric_spec_both (get_resource_hpa_values s) (get_resource_hpa_values-IsScaled s)

-- A label for the least number of replicas between 2^31 and 2^32 - 1 makes it negative.
pub min_replicas-negative :
    (s : ServiceConfig) (n : ℕ)
    → atoi (get_text label_hpa_min_replicas s.labels) ≡ some (pos n)
    → 2 ^ 31 ≤ n
    → n < 2 ^ 32
    → (get_resource_hpa_values s).min_replicas ≡ negsuc (2 ^ 32 - 1 - n)
unfolding get_resource_hpa_values get_hpa_value hpa_value_of to_int32
min_replicas-negative s n h k l = rw h (ground arith)

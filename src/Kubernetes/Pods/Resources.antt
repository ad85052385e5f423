-- ===== src/Kubernetes/Pods/Resources.antt =====
-- The limits and the requests of containers (ResourcesLimits and ResourcesRequests of
-- pkg/transformer/kubernetes/podspec.go, TranslatePodResource of k8sutils.go). A quantity is its
-- text; which texts are quantities is a parameter.
use kompose.Base.{
  Bool, ◌||◌, not, Option, none, some, List, [], ◌∷◌, map, Text, codes, ◌==◌, if◌then◌else◌,
}
use kompose.Base.Int.{ℤ}
use kompose.Base.Dict.{Dict, lookup, get_text}
use kompose.Base.Outcome.{Outcome, ok, panic, ◌>>=◌}
use kompose.Kobject.{ServiceConfig}
use kompose.Kubernetes.Types.{Container, PodSpec, PodTemplateSpec, ResourceList}
use kompose.Kubernetes.Pods.Probes.{is_zero}

abbrev unless_zero : ℤ → Option ℤ
unless_zero n = if is_zero n then none else some n

unfoldable pub resources_limits : ServiceConfig → PodSpec → PodSpec
resources_limits s pod =
    let limits : ResourceList = record {
      memory = unless_zero s.mem_limit;
      cpu = unless_zero s.cpu_limit;
      ephemeral_storage = none;
    } in
    if not (is_zero s.mem_limit) || not (is_zero s.cpu_limit)
    then record pod {
      containers = map {A = Container} (λ c. record c { limits = some limits }) pod.containers;
    }
    else pod

unfoldable pub resources_requests : ServiceConfig → PodSpec → PodSpec
resources_requests s pod =
    let requests : ResourceList = record {
      memory = unless_zero s.mem_reservation;
      cpu = unless_zero s.cpu_reservation;
      ephemeral_storage = none;
    } in
    if not (is_zero s.mem_reservation) || not (is_zero s.cpu_reservation)
    then record pod {
      containers = map {A = Container} (λ c. record c { requests = some requests }) pod.containers;
    }
    else pod

abbrev pub ephemeral_storage_limit : Text
ephemeral_storage_limit = codes "kompose.ephemeral-storage.limit"

abbrev pub ephemeral_storage_request : Text
ephemeral_storage_request = codes "kompose.ephemeral-storage.request"

-- template.Spec.Containers[0].Resources.Limits = resourceLimit
unfoldable pub limit_first : Option ResourceList → List Container → Outcome (List Container)
limit_first none containers = ok containers
limit_first (some list) [] = panic
limit_first (some list) (first ∷ others) = ok (record first { limits = some list } ∷ others)

-- template.Spec.Containers[0].Resources.Requests = resourceRequests
unfoldable pub request_first : Option ResourceList → List Container → Outcome (List Container)
request_first none containers = ok containers
request_first (some list) [] = panic
request_first (some list) (first ∷ others) = ok (record first { requests = some list } ∷ others)

module _ (is_quantity : Text → Bool) where
  unfoldable pub quantity_of : Option Text → Option Text
  quantity_of none = none
  quantity_of (some val) = if is_quantity val then some val else none

  -- The list of a memory, a cpu and a label, if one of them is set.
  unfoldable pub resource_list : ℤ → ℤ → Text → Dict Text → Option ResourceList
  unfolding quantity_of get_text lookup
  resource_list memory cpu label deploy_labels =
      if not (is_zero memory) || (not (is_zero cpu) || not (get_text label deploy_labels == []))
      then some (record {
        memory = unless_zero memory;
        cpu = unless_zero cpu;
        ephemeral_storage = quantity_of (lookup label deploy_labels);
      })
      else none

  unfoldable pub translate_pod_resource : ServiceConfig → PodTemplateSpec → Outcome PodTemplateSpec
  unfolding resource_list limit_first request_first
  translate_pod_resource s template = do
    limited ←
        limit_first (resource_list s.mem_limit s.cpu_limit ephemeral_storage_limit s.deploy_labels)
          template.spec.containers
    requested ←
        request_first
          (resource_list s.mem_reservation s.cpu_reservation ephemeral_storage_request
            s.deploy_labels)
          limited
    ok (record template { spec = record template.spec { containers = requested } })

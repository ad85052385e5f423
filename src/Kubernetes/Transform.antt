-- ===== src/Kubernetes/Transform.antt =====
-- Transform of pkg/transformer/kubernetes/kubernetes.go: from a project to its objects.
pub mod Steps
pub mod GroupPods
pub mod Thinned
pub mod Finished
pub mod Arranged
mod Tests
use kompose.Base.{Option, none, some, List, [], ◌∷◌, ◌++◌, map, Text, ◌==◌, if◌then◌else◌}
use kompose.Base.Dict.{Dict, lookup}
use kompose.Base.Outcome.{Outcome, ok, err, panic, ◌>>=◌}
use kompose.Host.{Host}
use kompose.Kobject.{ServiceConfig, ConvertOptions}
use kompose.Kobject.Project.{KomposeObject}
use kompose.Transformer.Annotations.{create_namespace}
use kompose.Kubernetes.Types.{RuntimeObject}
use kompose.Kubernetes.Groups.{
  sorted_keys, get_group, kompose_object_to_service_config_group_mapping,
}
use kompose.Kubernetes.Objects.{
  sort_services_first, remove_dup_objects, assign_namespace_to_objects,
}
use kompose.Kubernetes.NetworkMode.{fix_network_mode_to_service}
use kompose.Kubernetes.Transform.Steps.{create_secrets, transform_service}
use kompose.Kubernetes.Transform.GroupPods.{GroupState, empty_pod, transform_group, group_name_of}

-- The loop over the sorted ids of the groups.
unfoldable pub transform_groups :
    Host → ConvertOptions → Dict (List ServiceConfig) → List Text → Outcome (List RuntimeObject)
unfolding get_group group_name_of transform_group
transform_groups host opt groups [] = ok []
transform_groups host opt groups (id ∷ ids) =
    let rest = transform_groups host opt groups ids in
    let group = get_group id groups in
    let start : GroupState = record { ports_uses = []; pod_spec = empty_pod; objects = [] } in
    do
      st ← transform_group host opt (group_name_of opt id group) group start
      more ← rest
      ok (st.objects ++ more)

-- The loop over the sorted names; a service of a group was handled before.
unfoldable pub transform_services :
    Host → ConvertOptions → Dict ServiceConfig → List Text → Outcome (List RuntimeObject)
unfolding lookup transform_service
transform_services host opt services [] = ok []
transform_services host opt services (name ∷ names) =
    let rest = transform_services host opt services names in
    elim (lookup name services) [
      | none ↦ rest
      | some s ↦
          if s.in_group
          then rest
          else (do objects ← transform_service host opt name s; more ← rest; ok (objects ++ more))
    ]

-- The groups with the services, which are left alone where no mode is given.
unfoldable pub grouped :
    ConvertOptions → Dict ServiceConfig → Dict (List ServiceConfig) × Dict ServiceConfig
unfolding kompose_object_to_service_config_group_mapping
grouped opt services =
    if opt.service_group_mode == []
    then ([], services)
    else kompose_object_to_service_config_group_mapping services opt

-- The objects in the order in which they are made.
unfoldable pub all_objects : Host → KomposeObject → ConvertOptions → Outcome (List RuntimeObject)
unfolding create_secrets create_namespace grouped transform_groups transform_services sorted_keys
all_objects host project opt =
    let mapping = grouped opt project.service_configs in
    do
      secrets ← create_secrets host project.secrets
      group_objects ← transform_groups host opt mapping.0 (sorted_keys mapping.0)
      objects ← transform_services host opt mapping.1 (sorted_keys mapping.1)
      ok (
          secrets
          ++ (if project.namespace == [] then [] else create_namespace project.namespace ∷ [])
          ++ group_objects
          ++ objects)

-- What is done with all objects at the end, up to the network modes.
unfoldable pub ordered_objects : KomposeObject → List RuntimeObject → List RuntimeObject
unfolding sort_services_first remove_dup_objects assign_namespace_to_objects
ordered_objects project objects =
    let distinct = remove_dup_objects (sort_services_first objects) in
    if project.namespace == []
    then distinct
    else assign_namespace_to_objects project.namespace distinct

unfoldable pub transform : Host → KomposeObject → ConvertOptions → Outcome (List RuntimeObject)
unfolding all_objects ordered_objects grouped fix_network_mode_to_service
transform host project opt = do
  objects ← all_objects host project opt
  ok (
      fix_network_mode_to_service (ordered_objects project objects)
        (map (λ e. e.1) (grouped opt project.service_configs).1))

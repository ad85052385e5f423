-- ===== src/Kubernetes/Transform/Arranged.antt =====
-- Which objects Transform returns.
use kompose.Base.{◌≡◌, ap, ◌∙◌, inl, inr, Bool-cases, List, [], map, ◌==◌, All, if◌then◌else◌}
use kompose.Base.Outcome.{ok, >>=-eq-ok}
use kompose.Host.{Host}
use kompose.Kobject.{ServiceConfig, ConvertOptions}
use kompose.Kobject.Project.{KomposeObject}
use kompose.Kubernetes.Types.{RuntimeObject}
use kompose.Kubernetes.Objects.{
  sort_services_first, remove_dup_objects, assign_namespace_to_objects,
}
use kompose.Kubernetes.Objects.Order.{sort_services_first-filter}
use kompose.Kubernetes.Objects.Firsts.{firsts, remove_dup_objects-firsts}
use kompose.Kubernetes.NetworkMode.{fix_network_mode_to_service}
use kompose.Kubernetes.NetworkMode.Modes.{
  moves_of, moved, IsApart, fix_network_mode_to_service-moved,
}
use kompose.Kubernetes.Transform.{all_objects, grouped, ordered_objects, transform}
use kompose.Kubernetes.Transform.Finished.{in_namespace, services_first}

-- The services first, of the objects with one text of version, kind, namespace and name the first, and
-- all of them in the namespace of the project, if it has one.
pub arranged : KomposeObject → List RuntimeObject → List RuntimeObject
arranged project objs =
    if project.namespace == []
    then firsts (services_first objs)
    else map (in_namespace project.namespace) (firsts (services_first objs))

pub ordered_objects-arranged :
    (project : KomposeObject) (objs : List RuntimeObject)
    → ordered_objects project objs ≡ arranged project objs
unfolding arranged ordered_objects assign_namespace_to_objects
ordered_objects-arranged project objs =
    let distinct : remove_dup_objects (sort_services_first objs) ≡ firsts (services_first objs) =
      remove_dup_objects-firsts (sort_services_first objs)
      ∙ ap firsts (sort_services_first-filter objs) in
    elim (Bool-cases (project.namespace == [])) [
      | inl e ↦ rw e distinct
      | inr e ↦ rw e (ap (map (in_namespace project.namespace)) distinct)
    ]

-- The services of a project, as they are after grouping.
abbrev pub services_of : ConvertOptions → KomposeObject → List ServiceConfig
services_of opt project = map (λ e. e.1) (grouped opt project.service_configs).1

-- Where no service has its own name in its network_mode, Transform returns exactly these objects: the
-- ones that were made for the secrets, the namespace, the groups and the services, the services first,
-- of those with the same text of version, kind, namespace and name the first, in the namespace of the
-- project if it has one; then, for one network_mode that holds `service:` after the other, the
-- containers of the deployments of the service have moved to the deployments of the name between the
-- first two colons of the mode, and in the end the former are gone.
pub transform-arranged :
    (host : Host) (project : KomposeObject) (opt : ConvertOptions) (result : List RuntimeObject)
    → All IsApart (moves_of (services_of opt project))
    → transform host project opt ≡ ok result
    → (objs : List RuntimeObject) × (all_objects host project opt ≡ ok objs)
      × (result ≡ moved (moves_of (services_of opt project)) (arranged project objs))
unfolding transform
transform-arranged host project opt result apart e =
    let (objs, made, last) = >>=-eq-ok (all_objects host project opt) _ e in
    let same : result
        ≡ fix_network_mode_to_service (ordered_objects project objs) (services_of opt project) =
      cc in
    (
      objs,
      made,
      same
          ∙ fix_network_mode_to_service-moved (ordered_objects project objs)
              (services_of opt project) apart
          ∙ ap (moved (moves_of (services_of opt project))) (ordered_objects-arranged project objs),
    )

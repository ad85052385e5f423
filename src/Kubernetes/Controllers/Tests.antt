-- ===== src/Kubernetes/Controllers/Tests.antt =====
-- The update of a daemon set.
use kompose.Base.{◌≡◌, refl, [], ◌∷◌, List, map, codes, ◌==◌}
use kompose.Base.Outcome.{Outcome, ok, err, panic}
use kompose.Host.Samples.{bare_host}
use kompose.Kobject.Samples.{bare_service, bare_options}
use kompose.Kubernetes.Types.{RuntimeObject}
use kompose.Kubernetes.Workloads.{init_ds}
use kompose.Kubernetes.Volumes.{VolumeConfig}
use kompose.Kubernetes.Controllers.{all_volumes, update_kubernetes_objects}
use kompose.Kubernetes.Controllers.Kinds.{
  identity, expected_identities, update_kubernetes_objects-identity,
}

abbrev daemon : List RuntimeObject
daemon = init_ds (codes "agent") bare_service ∷ []

abbrev objects_of : Outcome (List RuntimeObject) → List RuntimeObject
objects_of (ok objects) = objects
objects_of err = []
objects_of panic = []

abbrev updated : List RuntimeObject
updated =
    objects_of
      (update_kubernetes_objects bare_host (codes "agent") bare_service bare_options daemon)

updated_ok :
    update_kubernetes_objects bare_host (codes "agent") bare_service bare_options daemon
    ≡ ok updated
unfolding update_kubernetes_objects init_ds ◌==◌
updated_ok = refl

update_kubernetes_objects-identity_example :
    (v : VolumeConfig) × (all_volumes bare_host bare_options (codes "agent") bare_service ≡ ok v)
    × (map identity updated ≡ expected_identities bare_options v daemon)
update_kubernetes_objects-identity_example =
    update_kubernetes_objects-identity bare_host (codes "agent") bare_service bare_options daemon
      updated updated_ok

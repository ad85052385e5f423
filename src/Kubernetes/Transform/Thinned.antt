-- ===== src/Kubernetes/Transform/Thinned.antt =====
-- Objects that lose some of their number, and change at most below their metadata.
use kompose.Base.{
  ℕ, zero, suc, ◌≡◌, refl, ◌∙◌, Bool, inl, inr, List, [], ◌∷◌, filter, any, get_elem?, length, Text,
  ◌==◌, All, Bool-cases, Option-cases,
}
use kompose.Kobject.{ServiceConfig}
use kompose.Kubernetes.Types.{RuntimeObject, ObjectMeta, Container}
use kompose.Kubernetes.Objects.{dup_key, remove_dup_from}
use kompose.Kubernetes.NetworkMode.{
  DeploymentMapping, is_named, body_containers, add_containers_to_target_deployment,
  add_containers_from, add_containers_from_source_to_target_deployment,
  merge_containers_into_destination_deployment, remove_deployment_transfered,
  search_network_mode_to_service, fix_network_mode_to_service,
}
use kompose.Kubernetes.NetworkMode.Move.{is_kept, remove_target_deployment-filter}

pub data Thinned : List RuntimeObject → List RuntimeObject → Type 0 where
  done : Thinned [] []
  drop :
      {objs kept : List RuntimeObject} (o : RuntimeObject)
      → Thinned objs kept
      → Thinned (o ∷ objs) kept
  keep :
      {objs kept : List RuntimeObject} (o p : RuntimeObject)
      → p.kind ≡ o.kind
      → p.meta ≡ o.meta
      → Thinned objs kept
      → Thinned (o ∷ objs) (p ∷ kept)

pub unthinned : (objs : List RuntimeObject) → Thinned objs objs
unthinned [] = done
unthinned (o ∷ objs) = keep o o refl refl (unthinned objs)

pub Thinned-trans : {xs ys zs : List RuntimeObject} → Thinned xs ys → Thinned ys zs → Thinned xs zs
Thinned-trans done u = u
Thinned-trans (drop o t) u = drop o (Thinned-trans t u)
Thinned-trans (keep o p k m t) (drop q u) = drop o (Thinned-trans t u)
Thinned-trans (keep o p k m t) (keep q r l n u) = keep o r (l ∙ k) (n ∙ m) (Thinned-trans t u)

-- A property of the kind and the metadata holds of what is left.
pub Thinned-All :
    (P : Text → ObjectMeta → Type 0) {objs kept : List RuntimeObject}
    → Thinned objs kept
    → All (λ o. P o.kind o.meta) objs
    → All (λ o. P o.kind o.meta) kept
Thinned-All P done h = tt
Thinned-All P (drop o t) h = Thinned-All P t h.1
Thinned-All P (keep o p k m t) h = (rw (k, m) h.0, Thinned-All P t h.1)

pub filter-Thinned :
    (p : RuntimeObject → Bool) (objs : List RuntimeObject) → Thinned objs (filter p objs)
filter-Thinned p [] = done
filter-Thinned p (o ∷ objs) = elim (Bool-cases (p o)) [
  | inl e ↦ rw e (keep o o refl refl (filter-Thinned p objs))
  | inr e ↦ rw e (drop o (filter-Thinned p objs))
]

pub remove_dup_from-Thinned :
    (objs : List RuntimeObject) (exist : List Text) → Thinned objs (remove_dup_from objs exist)
unfolding remove_dup_from
remove_dup_from-Thinned [] exist = done
remove_dup_from-Thinned (o ∷ objs) exist = elim (Bool-cases (any (λ k. k == dup_key o) exist)) [
  | inl e ↦ rw e (drop o (remove_dup_from-Thinned objs exist))
  | inr e ↦ rw e (keep o o refl refl (remove_dup_from-Thinned objs (dup_key o ∷ exist)))
]

add_target-Thinned :
    (cs : List Container) (target : Text) (objs : List RuntimeObject)
    → Thinned objs (add_containers_to_target_deployment cs target objs)
unfolding add_containers_to_target_deployment
add_target-Thinned cs target [] = done
add_target-Thinned cs target (o ∷ objs) = elim (Bool-cases (is_named target o)) [
  | inl e ↦ rw e (keep o _ refl refl (add_target-Thinned cs target objs))
  | inr e ↦ rw e (keep o o refl refl (add_target-Thinned cs target objs))
]

add_from-Thinned :
    (n i : ℕ) (m : DeploymentMapping) (objs : List RuntimeObject)
    → Thinned objs (add_containers_from n i m objs)
unfolding add_containers_from
add_from-Thinned zero i m objs = unthinned objs
add_from-Thinned (suc n) i m objs = elim (Option-cases (get_elem? objs i)) [
  | inl e ↦ rw e (add_from-Thinned n (suc i) m objs)
  | inr (o, e) ↦ rw e (elim (Bool-cases (is_named m.source_deployment_name o)) [
    | inl b ↦ rw b (
        Thinned-trans (add_target-Thinned (body_containers o.body) m.target_deployment_name objs)
          (add_from-Thinned n (suc i) m _))
    | inr b ↦ rw b (add_from-Thinned n (suc i) m objs)
  ])
]

merge-Thinned :
    (ms : List DeploymentMapping) (objs : List RuntimeObject)
    → Thinned objs (merge_containers_into_destination_deployment ms objs)
unfolding merge_containers_into_destination_deployment
    add_containers_from_source_to_target_deployment
merge-Thinned [] objs = unthinned objs
merge-Thinned (m ∷ ms) objs =
    Thinned-trans (add_from-Thinned (length objs) 0 m objs) (merge-Thinned ms _)

remove-Thinned :
    (ms : List DeploymentMapping) (objs : List RuntimeObject)
    → Thinned objs (remove_deployment_transfered ms objs)
unfolding remove_deployment_transfered
remove-Thinned [] objs = unthinned objs
remove-Thinned (m ∷ ms) objs =
    rw (remove_target_deployment-filter m.source_deployment_name objs)
      (Thinned-trans (filter-Thinned (is_kept m.source_deployment_name) objs) (remove-Thinned ms _))

moved-Thinned :
    (ms : List DeploymentMapping) (objs : List RuntimeObject)
    → Thinned objs
        (remove_deployment_transfered ms (merge_containers_into_destination_deployment ms objs))
moved-Thinned ms objs = Thinned-trans (merge-Thinned ms objs) (remove-Thinned ms _)

-- Whatever the network modes of the services are, adjusting them invents no object and reorders none:
-- it drops objects, and changes those that it keeps below their kind and their metadata alone.
pub fix_network_mode_to_service-Thinned :
    (objs : List RuntimeObject) (services : List ServiceConfig)
    → Thinned objs (fix_network_mode_to_service objs services)
unfolding fix_network_mode_to_service
fix_network_mode_to_service-Thinned objs services =
    by_mappings (search_network_mode_to_service services)
  where
    by_mappings :
        (ms : List DeploymentMapping)
        → Thinned objs (elim ms [
          | [] ↦ objs
          | m ∷ more ↦
              remove_deployment_transfered
                (m ∷ more)
                (merge_containers_into_destination_deployment (m ∷ more) objs)
        ])
    by_mappings [] = unthinned objs
    by_mappings (m ∷ more) = moved-Thinned (m ∷ more) objs

-- ===== src/Kubernetes/Transform/Finished.antt =====
-- What Transform promises of the objects that it returns.
use kompose.Base.{
  ◌≡◌, ◌≢◌, refl, ap, subst, true, false, not, ◌⊎◌, inl, inr, List, [], ◌∷◌, ◌++◌, map, filter,
  arith, Text, codes, ◌==◌, ==_iff, All, Bool-cases, if◌then◌else◌,
}
use kompose.Base.Outcome.{ok, >>=-eq-ok}
use kompose.Host.{Host}
use kompose.Kobject.{ConvertOptions}
use kompose.Kobject.Project.{KomposeObject}
use kompose.Kubernetes.Types.{RuntimeObject, ObjectMeta}
use kompose.Kubernetes.Objects.{
  is_service, sort_services_first, remove_dup_objects, assign_namespace_to_objects,
}
use kompose.Kubernetes.Objects.Order.{sort_services_first-filter}
use kompose.Kubernetes.Transform.{all_objects, grouped, ordered_objects, transform}
use kompose.Kubernetes.Transform.Thinned.{
  Thinned, done, drop, keep, Thinned-trans, Thinned-All, remove_dup_from-Thinned,
  fix_network_mode_to_service-Thinned,
}

abbrev pub in_namespace : Text → RuntimeObject → RuntimeObject
in_namespace namespace o = record o { meta = record o.meta { namespace = namespace } }

abbrev pub services_first : List RuntimeObject → List RuntimeObject
services_first objs = filter is_service objs ++ filter (λ o. not (is_service o)) objs

-- The objects as they should be listed: services first, in the namespace of the project if it has one.
pub listed : KomposeObject → List RuntimeObject → List RuntimeObject
listed project objs =
    if project.namespace == []
    then services_first objs
    else map (in_namespace project.namespace) (services_first objs)

map-Thinned :
    (namespace : Text) {objs kept : List RuntimeObject}
    → Thinned objs kept
    → Thinned (map (in_namespace namespace) objs) (map (in_namespace namespace) kept)
map-Thinned namespace done = done
map-Thinned namespace (drop o t) = drop (in_namespace namespace o) (map-Thinned namespace t)
map-Thinned namespace (keep o p k m t) =
    keep (in_namespace namespace o) (in_namespace namespace p) k
      (ap {A = ObjectMeta} {B = ObjectMeta} (λ x. record x { namespace = namespace }) m)
      (map-Thinned namespace t)

distinct-Thinned :
    (objs : List RuntimeObject)
    → Thinned (services_first objs) (remove_dup_objects (sort_services_first objs))
unfolding remove_dup_objects
distinct-Thinned objs =
    rw (sort_services_first-filter objs) (remove_dup_from-Thinned (services_first objs) [])

pub ordered-Thinned :
    (project : KomposeObject) (objs : List RuntimeObject)
    → Thinned (listed project objs) (ordered_objects project objs)
unfolding listed ordered_objects assign_namespace_to_objects
ordered-Thinned project objs = elim (Bool-cases (project.namespace == [])) [
  | inl e ↦ rw e (distinct-Thinned objs)
  | inr e ↦ rw e (map-Thinned project.namespace (distinct-Thinned objs))
]

-- Some of the objects that were made, in the order of `listed`, with their kinds and their metadata.
pub transform-Thinned :
    (host : Host) (project : KomposeObject) (opt : ConvertOptions) (result : List RuntimeObject)
    → transform host project opt ≡ ok result
    → (objs : List RuntimeObject) × (all_objects host project opt ≡ ok objs)
      × Thinned (listed project objs) result
unfolding transform
transform-Thinned host project opt result e =
    let (objs, made, last) = >>=-eq-ok (all_objects host project opt) _ e in
    (
      objs,
      made,
      subst (Thinned (listed project objs)) (ok-injective last) (
          Thinned-trans (ordered-Thinned project objs) (
            fix_network_mode_to_service-Thinned (ordered_objects project objs)
              (map (λ e. e.1) (grouped opt project.service_configs).1))),
    )
  where
    ok-injective : {xs ys : List RuntimeObject} → (ok xs ≡ ok ys) → xs ≡ ys
    ok-injective p = cc

abbrev IsOther : Text → ObjectMeta → Type 0
IsOther kind meta = (kind == codes "Service") ≡ false

-- Behind an object that is no service stands none.
abbrev pub IsServicesFirst : List RuntimeObject → Type 0
IsServicesFirst [] = Unit
IsServicesFirst (o ∷ objs) =
    ((is_service o ≡ true) × IsServicesFirst objs) ⊎ All (λ x. IsOther x.kind x.meta) (o ∷ objs)

others-IsServicesFirst :
    (objs : List RuntimeObject) → All (λ x. IsOther x.kind x.meta) objs → IsServicesFirst objs
others-IsServicesFirst [] h = tt
others-IsServicesFirst (o ∷ objs) h = inr h

pub Thinned-IsServicesFirst :
    {objs kept : List RuntimeObject}
    → Thinned objs kept
    → IsServicesFirst objs
    → IsServicesFirst kept
Thinned-IsServicesFirst done h = tt
Thinned-IsServicesFirst (drop o t) (inl h) = Thinned-IsServicesFirst t h.1
Thinned-IsServicesFirst (drop o t) (inr h) = others-IsServicesFirst _ (Thinned-All IsOther t h.1)
Thinned-IsServicesFirst (keep o p k m t) (inl h) = inl (rw k h.0, Thinned-IsServicesFirst t h.1)
Thinned-IsServicesFirst (keep o p k m t) (inr h) = inr (Thinned-All IsOther (keep o p k m t) h)

filter-others :
    (objs : List RuntimeObject)
    → All (λ x. IsOther x.kind x.meta) (filter (λ o. not (is_service o)) objs)
filter-others [] = tt
filter-others (o ∷ objs) = ground (arith, filter-others objs)

services-IsServicesFirst :
    (objs others : List RuntimeObject)
    → IsServicesFirst others
    → IsServicesFirst (filter is_service objs ++ others)
services-IsServicesFirst [] others h = h
services-IsServicesFirst (o ∷ objs) others h = elim (Bool-cases (is_service o)) [
  | inl e ↦ rw e (inl (e, services-IsServicesFirst objs others h))
  | inr e ↦ rw e (services-IsServicesFirst objs others h)
]

map-IsServicesFirst :
    (namespace : Text) (objs : List RuntimeObject)
    → IsServicesFirst objs
    → IsServicesFirst (map (in_namespace namespace) objs)
map-IsServicesFirst namespace [] h = tt
map-IsServicesFirst namespace (o ∷ objs) (inl h) = inl (h.0, map-IsServicesFirst namespace objs h.1)
map-IsServicesFirst namespace (o ∷ objs) (inr h) = inr (h.0, others objs h.1)
  where
    others :
        (objs : List RuntimeObject)
        → All (λ x. IsOther x.kind x.meta) objs
        → All (λ x. IsOther x.kind x.meta) (map (in_namespace namespace) objs)
    others [] h = tt
    others (o ∷ objs) h = (h.0, others objs h.1)

pub listed-IsServicesFirst :
    (project : KomposeObject) (objs : List RuntimeObject) → IsServicesFirst (listed project objs)
unfolding listed
listed-IsServicesFirst project objs =
    let first : IsServicesFirst (services_first objs) =
      services-IsServicesFirst objs _ (others-IsServicesFirst _ (filter-others objs)) in
    elim (Bool-cases (project.namespace == [])) [
      | inl e ↦ rw e first
      | inr e ↦ rw e (map-IsServicesFirst project.namespace (services_first objs) first)
    ]

-- Whatever Transform returns, no service stands behind an object that is none, also after the
-- containers of services with a network mode were moved.
pub transform-IsServicesFirst :
    (host : Host) (project : KomposeObject) (opt : ConvertOptions) (result : List RuntimeObject)
    → transform host project opt ≡ ok result
    → IsServicesFirst result
transform-IsServicesFirst host project opt result e =
    let (objs, made, t) = transform-Thinned host project opt result e in
    Thinned-IsServicesFirst t (listed-IsServicesFirst project objs)

All-in_namespace :
    (namespace : Text) (objs : List RuntimeObject)
    → All (λ o. o.meta.namespace ≡ namespace) (map (in_namespace namespace) objs)
All-in_namespace namespace [] = tt
All-in_namespace namespace (o ∷ objs) = (refl, All-in_namespace namespace objs)

-- Where the project has a namespace, every object that Transform returns is in it.
pub transform-namespace :
    (host : Host) (project : KomposeObject) (opt : ConvertOptions) (result : List RuntimeObject)
    → transform host project opt ≡ ok result
    → project.namespace ≢ []
    → All (λ o. o.meta.namespace ≡ project.namespace) result
unfolding listed
transform-namespace host project opt result e ne =
    let (objs, made, t) = transform-Thinned host project opt result e in
    let no : (project.namespace == []) ≡ false = ground (arith, ==_iff project.namespace []) in
    Thinned-All (λ kind meta. meta.namespace ≡ project.namespace) t
      (rw no (All-in_namespace project.namespace (services_first objs)))

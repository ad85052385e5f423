-- ===== src/Kubernetes/NetworkMode/Modes.antt =====
-- What the network modes of all services do together.
use kompose.Base.{
  Bool, not, ◌≡◌, ◌≢◌, refl, sym, ap, ◌∙◌, inl, inr, Option, none, some, List, [], ◌∷◌, ◌++◌, map,
  filter, filter-filter, arith, Text, codes, nat_eq, any, All, get_elem?, split, split_from,
  append_assoc, append-nil, Bool-cases, if◌then◌else◌,
}
use kompose.Base.Substrings.{contains_text}
use kompose.Kobject.{ServiceConfig}
use kompose.Kubernetes.Types.{RuntimeObject}
use kompose.Kubernetes.NetworkMode.{
  DeploymentMapping, is_named, mapping_of, search_network_mode_to_service,
  merge_containers_into_destination_deployment, remove_deployment_transfered,
  fix_network_mode_to_service,
}
use kompose.Kubernetes.NetworkMode.Move.{is_kept, remove_target_deployment-filter}
use kompose.Kubernetes.NetworkMode.Merge.{receive, containers_of, merge-receive}

-- The text in front of the first colon, and what stands between the first two of them.
abbrev before_colon : Text → Text
before_colon [] = []
before_colon (c ∷ t) = if nat_eq c b':' then [] else c ∷ before_colon t

abbrev between_colons : Text → Option Text
between_colons [] = none
between_colons (c ∷ t) = if nat_eq c b':' then some (before_colon t) else between_colons t

-- The services whose mode holds `service:`, each with what stands between the first two colons.
abbrev pub moves_of : List ServiceConfig → List DeploymentMapping
moves_of [] = []
moves_of (s ∷ services) =
    let rest = moves_of services in
    if contains_text s.network_mode (codes "service:")
    then elim (between_colons s.network_mode) [
      | none ↦ rest
      | some t ↦ record { source_deployment_name = s.name; target_deployment_name = t } ∷ rest
    ]
    else rest

first_part : (s cur : Text) → get_elem? (split_from b':' s cur) 0 ≡ some (cur ++ before_colon s)
unfolding split_from
first_part [] cur = ap some (sym (append-nil cur))
first_part (c ∷ s) cur = elim (Bool-cases (nat_eq c b':')) [
  | inl e ↦ rw (e, get_elem?, split_from, before_colon) (ap some (sym (append-nil cur)))
  | inr e ↦
      rw (e, get_elem?, split_from, before_colon)
        (first_part s (cur ++ c ∷ []) ∙ ap some (append_assoc cur (c ∷ []) (before_colon s)))
]

second_part : (s cur : Text) → get_elem? (split_from b':' s cur) 1 ≡ between_colons s
unfolding split_from
second_part [] cur = refl
second_part (c ∷ s) cur = elim (Bool-cases (nat_eq c b':')) [
  | inl e ↦ rw (e, get_elem?, split_from, between_colons) (first_part s [])
  | inr e ↦ rw (e, get_elem?, split_from, between_colons) (second_part s (cur ++ c ∷ []))
]

with_mapping : Option DeploymentMapping → List DeploymentMapping → List DeploymentMapping
with_mapping none ms = ms
with_mapping (some m) ms = m ∷ ms

mapping-moves :
    (s : ServiceConfig) (services : List ServiceConfig)
    → with_mapping (mapping_of s) (moves_of services) ≡ moves_of (s ∷ services)
unfolding mapping_of split with_mapping
mapping-moves s services = elim (Bool-cases (contains_text s.network_mode (codes "service:"))) [
  | inl e ↦
      rw (e, mapping_of, second_part s.network_mode []) (by_target (between_colons s.network_mode))
  | inr e ↦ rw (e, mapping_of) refl
]
  where
    by_target :
        (found : Option Text)
        → with_mapping
            (elim found as (λ _. Option DeploymentMapping) [
              | none ↦ none
              | some t ↦
                  some (record { source_deployment_name = s.name; target_deployment_name = t })
            ])
            (moves_of services)
          ≡ elim found as (λ _. List DeploymentMapping) [
            | none ↦ moves_of services
            | some t ↦
                record { source_deployment_name = s.name; target_deployment_name = t }
                ∷ moves_of services
          ]
    by_target none = refl
    by_target (some t) = refl

search-with :
    (s : ServiceConfig) (services : List ServiceConfig)
    → search_network_mode_to_service (s ∷ services)
      ≡ with_mapping (mapping_of s) (search_network_mode_to_service services)
unfolding search_network_mode_to_service with_mapping
search-with s services = by_mapping (mapping_of s)
  where
    by_mapping :
        (m : Option DeploymentMapping)
        → elim m as (λ _. List DeploymentMapping) [
          | none ↦ search_network_mode_to_service services
          | some n ↦ n ∷ search_network_mode_to_service services
        ]
          ≡ with_mapping m (search_network_mode_to_service services)
    by_mapping none = refl
    by_mapping (some m) = refl

search-moves :
    (services : List ServiceConfig) → search_network_mode_to_service services ≡ moves_of services
unfolding search_network_mode_to_service
search-moves [] = refl
search-moves (s ∷ services) =
    search-with s services
    ∙ ap (with_mapping (mapping_of s)) (search-moves services)
    ∙ mapping-moves s services

-- One mapping after the other: every deployment of the target name receives the containers that the
-- deployments of the source name have by then.
received : List DeploymentMapping → List RuntimeObject → List RuntimeObject
received [] objs = objs
received (m ∷ ms) objs =
    received ms
      (map (receive m.target_deployment_name (containers_of m.source_deployment_name objs)) objs)

is_source : List DeploymentMapping → RuntimeObject → Bool
is_source ms o = any (λ m. is_named m.source_deployment_name o) ms

-- Then no deployment of a source name is left.
pub moved : List DeploymentMapping → List RuntimeObject → List RuntimeObject
unfolding received is_source
moved ms objs = filter (λ o. not (is_source ms o)) (received ms objs)

-- No service shares the network of itself.
abbrev pub IsApart : DeploymentMapping → Type 0
IsApart m = m.source_deployment_name ≢ m.target_deployment_name

merge-received :
    (ms : List DeploymentMapping) (objs : List RuntimeObject)
    → All IsApart ms
    → merge_containers_into_destination_deployment ms objs ≡ received ms objs
unfolding merge_containers_into_destination_deployment received
merge-received [] objs h = refl
merge-received (m ∷ ms) objs (apart, h) = rw (merge-receive m apart objs) (merge-received ms _ h)

none_removed : (objs : List RuntimeObject) → filter (λ o. not (is_source [] o)) objs ≡ objs
unfolding is_source
none_removed [] = refl
none_removed (o ∷ objs) = ap (λ xs. o ∷ xs) (none_removed objs)

remove-sources :
    (ms : List DeploymentMapping) (objs : List RuntimeObject)
    → remove_deployment_transfered ms objs ≡ filter (λ o. not (is_source ms o)) objs
unfolding remove_deployment_transfered is_source
remove-sources [] objs = sym (none_removed objs)
remove-sources (m ∷ ms) objs = rw (remove_target_deployment-filter m.source_deployment_name objs) (
    remove-sources ms (filter (is_kept m.source_deployment_name) objs)
    ∙ filter-filter (λ o. not (is_source ms o)) (is_kept m.source_deployment_name)
        (λ o. not (is_source (m ∷ ms) o)) (λ o. ground arith) objs)

pub fix_network_mode_to_service-moved :
    (objs : List RuntimeObject) (services : List ServiceConfig)
    → All IsApart (moves_of services)
    → fix_network_mode_to_service objs services ≡ moved (moves_of services) objs
unfolding fix_network_mode_to_service moved received
fix_network_mode_to_service-moved objs services h =
    rw (fix_network_mode_to_service, search-moves services) (by_moves (moves_of services) h)
  where
    by_moves :
        (ms : List DeploymentMapping)
        → All IsApart ms
        → (elim ms as (λ _. List RuntimeObject) [
          | [] ↦ objs
          | m ∷ more ↦
              remove_deployment_transfered
                (m ∷ more)
                (merge_containers_into_destination_deployment (m ∷ more) objs)
        ])
          ≡ filter (λ o. not (is_source ms o)) (received ms objs)
    by_moves [] h = sym (none_removed objs)
    by_moves (m ∷ ms) h =
        remove-sources (m ∷ ms) _
        ∙ ap (filter (λ o. not (is_source (m ∷ ms) o))) (merge-received (m ∷ ms) objs h)

-- ===== src/Kubernetes/NetworkMode.antt =====
-- Services whose network_mode is `service:<other>`: their containers move to the other's deployment
-- (pkg/transformer/kubernetes/k8sutils.go). A loop over the services is a loop over their list.
pub mod Move
pub mod Merge
pub mod Modes
use Prim.Native.Nat.{zero, suc}
use native.Mathlib.Decide.{ℕ_discrete}
use kompose.Base.{
  ℕ, Bool, true, false, ◌≡◌, ◌↔◌, refl, ◌&&◌, Option, none, some, List, [], ◌∷◌, ◌++◌, map, filter,
  Text, codes, ◌==◌, split, has_prefix, length, get_elem?, if◌then◌else◌,
}
use kompose.Base.Int.{ℤ}
use kompose.Base.Substrings.{contains_text}
use kompose.Kobject.{ServiceConfig}
use kompose.Kubernetes.Types.{
  RuntimeObject, ObjectBody, deployment, PodSpec, Container, PodTemplateSpec,
}

-- DeploymentMapping
pub record DeploymentMapping : Type 0 where
  pub source_deployment_name : Text
  pub target_deployment_name : Text

-- The mapping of one service, if its mode names another.
unfoldable pub mapping_of : ServiceConfig → Option DeploymentMapping
unfolding contains_text split
mapping_of s =
    if contains_text s.network_mode (codes "service:")
    then elim (get_elem? (split s.network_mode b':') 1) [
      | none ↦ none
      | some t ↦ some (record { source_deployment_name = s.name; target_deployment_name = t })
    ]
    else none

unfoldable pub search_network_mode_to_service : List ServiceConfig → List DeploymentMapping
unfolding mapping_of
search_network_mode_to_service [] = []
search_network_mode_to_service (s ∷ services) =
    let rest = search_network_mode_to_service services in
    elim (mapping_of s) [ none ↦ rest | some m ↦ m ∷ rest ]

abbrev pub is_deployment : ObjectBody → Bool
is_deployment (deployment _) = true
is_deployment _ = false

-- A Deployment of that name.
abbrev pub is_named : Text → RuntimeObject → Bool
is_named name o = is_deployment o.body && o.meta.name == name

-- The containers of a deployment.
abbrev pub body_containers : ObjectBody → List Container
body_containers (deployment d) = d.template.spec.containers
body_containers _ = []

abbrev pub append_containers : List Container → ObjectBody → ObjectBody
append_containers cs (deployment d) = deployment (record d {
  template = record d.template {
    spec = record d.template.spec { containers = d.template.spec.containers ++ cs };
  };
})
append_containers cs b = b

unfoldable pub add_containers_to_target_deployment :
    List Container → Text → List RuntimeObject → List RuntimeObject
add_containers_to_target_deployment cs target objs =
    map (λ o. if is_named target o then record o { body = append_containers cs o.body } else o) objs

-- The loop over the objects, by index: the objects are pointers, so each round sees what the rounds
-- before it wrote. The number of rounds is that of the objects.
unfoldable pub add_containers_from :
    ℕ → ℕ → DeploymentMapping → List RuntimeObject → List RuntimeObject
unfolding add_containers_to_target_deployment
add_containers_from zero i m objs = objs
add_containers_from (suc n) i m objs = add_containers_from n (suc i) m (elim (get_elem? objs i) [
  | none ↦ objs
  | some o ↦
      if is_named m.source_deployment_name o
      then add_containers_to_target_deployment (body_containers o.body) m.target_deployment_name
          objs
      else objs
])

unfoldable pub add_containers_from_source_to_target_deployment :
    List RuntimeObject → DeploymentMapping → List RuntimeObject
unfolding add_containers_from
add_containers_from_source_to_target_deployment objs m = add_containers_from (length objs) 0 m objs

unfoldable pub merge_containers_into_destination_deployment :
    List DeploymentMapping → List RuntimeObject → List RuntimeObject
unfolding add_containers_from_source_to_target_deployment
merge_containers_into_destination_deployment [] objs = objs
merge_containers_into_destination_deployment (m ∷ ms) objs =
    merge_containers_into_destination_deployment ms
      (add_containers_from_source_to_target_deployment objs m)

RuntimeObject-discrete : Discrete RuntimeObject
RuntimeObject-discrete = hlevel ℕ_discrete

abbrev decided {ℓ} : {P : Type ℓ} → Dec P → Bool
decided (yes _) = true
decided (no _) = false

-- reflect.DeepEqual
pub deep_equal : RuntimeObject → RuntimeObject → Bool
deep_equal a b = decided (RuntimeObject-discrete a b)

decided_iff {ℓ} : {P : Type ℓ} (d : Dec P) → (decided d ≡ true) ↔ P
decided_iff (yes p) = (λ _. p, λ _. refl)
decided_iff (no np) = (λ e. cc, λ p. absurd (np p))

pub deep_equal_iff : (a b : RuntimeObject) → (deep_equal a b ≡ true) ↔ (a ≡ b)
unfolding deep_equal
deep_equal_iff a b = decided_iff (RuntimeObject-discrete a b)

unfoldable pub remove_from_slice : List RuntimeObject → RuntimeObject → List RuntimeObject
remove_from_slice [] o = []
remove_from_slice (x ∷ objs) o = if deep_equal x o then objs else x ∷ remove_from_slice objs o

-- The loop from the index `n - 1` down to 0.
unfoldable pub remove_target_from : ℕ → Text → List RuntimeObject → List RuntimeObject
unfolding remove_from_slice
remove_target_from zero target objs = objs
remove_target_from (suc n) target objs = remove_target_from n target (elim (get_elem? objs n) [
  | none ↦ objs
  | some o ↦ if is_named target o then remove_from_slice objs o else objs
])

unfoldable pub remove_target_deployment : Text → List RuntimeObject → List RuntimeObject
unfolding remove_target_from
remove_target_deployment target objs = remove_target_from (length objs) target objs

unfoldable pub remove_deployment_transfered :
    List DeploymentMapping → List RuntimeObject → List RuntimeObject
unfolding remove_target_deployment
remove_deployment_transfered [] objs = objs
remove_deployment_transfered (m ∷ ms) objs =
    remove_deployment_transfered ms (remove_target_deployment m.source_deployment_name objs)

unfoldable pub fix_network_mode_to_service :
    List RuntimeObject → List ServiceConfig → List RuntimeObject
unfolding search_network_mode_to_service merge_containers_into_destination_deployment
    remove_deployment_transfered
fix_network_mode_to_service objs services =
    let ms = search_network_mode_to_service services in
    elim ms [
      | [] ↦ objs
      | m ∷ more ↦
          remove_deployment_transfered (m ∷ more)
            (merge_containers_into_destination_deployment (m ∷ more) objs)
    ]

-- ===== src/Client/Defaults.antt =====
-- No option that a caller leaves out ends in a nil pointer.
use kompose.Base.{
  ◌≢◌, Bool, true, false, [], ◌∷◌, Option, none, some, List, Text, arith, codes, ◌==◌,
  if◌then◌else◌,
}
use kompose.Base.Int.{pos}
use kompose.Base.Outcome.{Outcome, ok, err, panic, ◌>>=◌}
use kompose.Kobject.{ConvertOptions}
use kompose.App.{validate_compose_file, find_compose_file}
use kompose.Client.{
  KubernetesProvider, Provider, kubernetes, openshift, other, Options, or_default, deref,
  default_kubernetes, default_provider, set_default_values, validate_provider, validate_options,
  get_controller, service_group_mode_of, create_controller, convert_options, prepare, is_build,
  is_volume_type, is_controller, is_group_mode, empty_kubernetes,
}

-- A call that does not panic.
abbrev Safe {ℓ} : {A : Type ℓ} → Outcome A → Type 0
Safe (ok value) = Unit
Safe err = Unit
Safe panic = ⊥

Safe-bind {ℓ κ} :
    {A : Type ℓ} {B : Type κ} (call : Outcome A) (next : A → Outcome B)
    → Safe call
    → ((value : A) → Safe (next value))
    → Safe (call >>= next)
Safe-bind (ok value) next h f = f value
Safe-bind err next h f = tt
Safe-bind panic next h f = elim h [ ]

or_default-Safe {ℓ} : {A : Type ℓ} (value : A) (p : Option A) → Safe (deref (or_default value p))
or_default-Safe value none = tt
or_default-Safe value (some given) = tt

check-Safe {ℓ} : {A : Type ℓ} (b : Bool) (value : A) → Safe (if b then ok value else err)
check-Safe true value = tt
check-Safe false value = tt

checked-Safe {ℓ} : {A : Type ℓ} (b : Bool) (value : A) → Safe (if b then err else ok value)
checked-Safe true value = tt
checked-Safe false value = tt

kubernetes-Safe :
    (build : Text) (k : KubernetesProvider)
    → Safe (validate_provider build (some (kubernetes (default_kubernetes k))))
unfolding validate_provider default_kubernetes
kubernetes-Safe build k =
    Safe-bind (deref (or_default [] k.controller)) _ (or_default-Safe [] k.controller)
      (λ controller.
        Safe-bind (if is_controller controller then ok controller else err) _
          (check-Safe (is_controller controller) controller)
          (λ _.
            Safe-bind (deref (or_default [] k.service_group_mode)) _
              (or_default-Safe [] k.service_group_mode)
              (λ mode.
                Safe-bind (if is_group_mode mode then ok mode else err) _
                  (check-Safe (is_group_mode mode) mode)
                  (λ _. checked-Safe (build == codes "build-config") build))))

provider-Safe :
    (build : Text) (p : Option Provider)
    → Safe (validate_provider build (some (default_provider p)))
unfolding default_provider validate_provider
provider-Safe build none = kubernetes-Safe build empty_kubernetes
provider-Safe build (some (kubernetes k)) = kubernetes-Safe build k
provider-Safe build (some (openshift p)) = tt
provider-Safe build (some other) = tt

validate-Safe : (o : Options) → Safe (validate_options (set_default_values o))
unfolding validate_options set_default_values
validate-Safe o =
    Safe-bind (deref (or_default (codes "none") o.build)) _ (or_default-Safe (codes "none") o.build)
      (λ build.
        Safe-bind (if is_build build then ok build else err) _ (check-Safe (is_build build) build)
          (λ _.
            Safe-bind (deref (or_default (codes "persistentVolumeClaim") o.volume_type)) _
              (or_default-Safe (codes "persistentVolumeClaim") o.volume_type)
              (λ volume.
                Safe-bind (if is_volume_type volume then ok volume else err) _
                  (check-Safe (is_volume_type volume) volume)
                  (λ _. provider-Safe build o.provider))))

controller-Safe : (p : Option Provider) → Safe (get_controller (some (default_provider p)))
unfolding get_controller default_provider default_kubernetes
controller-Safe none = tt
controller-Safe (some (kubernetes k)) = or_default-Safe [] k.controller
controller-Safe (some (openshift p)) = tt
controller-Safe (some other) = tt

mode-Safe : (p : Option Provider) → Safe (service_group_mode_of (some (default_provider p)))
unfolding service_group_mode_of default_provider default_kubernetes
mode-Safe none = tt
mode-Safe (some (kubernetes k)) = or_default-Safe [] k.service_group_mode
mode-Safe (some (openshift p)) = tt
mode-Safe (some other) = tt

create-Safe :
    (kind : Text) (p : Option Provider) → Safe (create_controller kind (some (default_provider p)))
unfolding create_controller default_provider default_kubernetes
create-Safe kind none = tt
create-Safe kind (some (kubernetes k)) =
    Safe-bind (deref (or_default [] k.controller)) _ (or_default-Safe [] k.controller) (λ c. tt)
create-Safe kind (some (openshift p)) = tt
create-Safe kind (some other) = tt

convert-Safe : (o : Options) → Safe (convert_options (set_default_values o))
unfolding convert_options set_default_values
convert-Safe o =
    let p : Option Provider = some (default_provider o.provider) in
    Safe-bind (deref (or_default (pos 1) o.replicas)) _ (or_default-Safe (pos 1) o.replicas) (λ _.
      Safe-bind (deref (or_default (codes "none") o.build)) _
        (or_default-Safe (codes "none") o.build)
        (λ _.
          Safe-bind (deref (or_default (codes "persistentVolumeClaim") o.volume_type)) _
            (or_default-Safe (codes "persistentVolumeClaim") o.volume_type)
            (λ _.
              Safe-bind (deref (or_default true o.with_kompose_annotations)) _
                (or_default-Safe true o.with_kompose_annotations)
                (λ _.
                  Safe-bind (create_controller (codes "deployment") p) _
                    (create-Safe (codes "deployment") o.provider)
                    (λ _.
                      Safe-bind (create_controller (codes "daemonSet") p) _
                        (create-Safe (codes "daemonSet") o.provider)
                        (λ _.
                          Safe-bind (create_controller (codes "replicationController") p) _
                            (create-Safe (codes "replicationController") o.provider)
                            (λ _. Safe-bind (get_controller p) _ (controller-Safe o.provider) (λ _.
                              Safe-bind (service_group_mode_of p) _ (mode-Safe o.provider)
                                (λ _. tt)))))))))

file-Safe :
    (exists : Text → Bool) (default_files : List Text) (opt : ConvertOptions)
    → Safe (validate_compose_file exists default_files opt)
unfolding validate_compose_file
file-Safe exists default_files opt = by_files opt.input_files
  where
    by_default :
        (found : Option Text)
        → Safe (elim found as (λ _. Outcome ConvertOptions) [
          | none ↦ err
          | some name ↦ ok (record opt { input_files = name ∷ [] })
        ])
    by_default none = tt
    by_default (some name) = tt

    by_files :
        (files : List Text)
        → Safe (elim files as (λ _. Outcome ConvertOptions) [
          | [] ↦ (elim (find_compose_file exists default_files) [
            | none ↦ err
            | some name ↦ ok (record opt { input_files = name ∷ [] })
          ])
          | f ∷ rest ↦ ok opt
        ])
    by_files [] = by_default (find_compose_file exists default_files)
    by_files (f ∷ rest) = tt

Safe-panic {ℓ} : {A : Type ℓ} (call : Outcome A) → Safe call → call ≢ panic
Safe-panic (ok value) h = ground arith
Safe-panic err h = ground arith
Safe-panic panic h = elim h [ ]

-- Whatever a caller leaves out, the options are refused by an error value or handed on: no nil pointer
-- is read after the default values are set.
pub prepare-safe :
    (exists : Text → Bool) (default_files : List Text) (o : Options)
    → prepare exists default_files o ≢ panic
unfolding prepare
prepare-safe exists default_files o = Safe-panic _ (
    Safe-bind (validate_options (set_default_values o)) _ (validate-Safe o) (λ _.
      Safe-bind (convert_options (set_default_values o)) _ (convert-Safe o)
        (λ opt. file-Safe exists default_files opt)))

-- ===== src/App.antt =====
-- pkg/app/app.go: the checks of the command line and the choice of controllers. `log.Fatal` ends the
-- program: `err`.
pub mod Flags
pub mod Controllers
pub mod Convert
mod Tests
use kompose.Base.{
  ℕ, ◌+◌, Bool, true, false, ◌&&◌, ◌||◌, not, Option, none, some, List, [], ◌∷◌, Text, codes, ◌==◌,
  any, length, ltb, if◌then◌else◌,
}
use kompose.Base.Int.{ℤ, pos, ltb_ℤ}
use kompose.Base.Outcome.{Outcome, ok, err, panic}
use kompose.Kobject.{ConvertOptions}

-- What the command line's flag set says: the provider, and which flags were changed.
pub record FlagSet : Type 0 where
  pub provider : Text
  pub deployment_config : Bool
  pub build_repo : Bool
  pub build_branch : Bool
  pub chart : Bool
  pub daemon_set : Bool
  pub replication_controller : Bool
  pub deployment : Bool

abbrev pub provider_kubernetes : Text
provider_kubernetes = codes "kubernetes"

abbrev pub provider_openshift : Text
provider_openshift = codes "openshift"

abbrev pub valid_volume_set : List Text
valid_volume_set =
    codes "emptyDir" ∷ codes "hostPath" ∷ codes "configMap" ∷ codes "persistentVolumeClaim" ∷ []

unfoldable pub is_valid_volume : Text → Bool
is_valid_volume v = any (λ w. w == v) valid_volume_set

-- `-` for the output file stands for the standard output.
unfoldable pub normalize_output : ConvertOptions → ConvertOptions
normalize_output opt =
    if opt.out_file == codes "-" then record opt { to_stdout = true; out_file = [] } else opt

abbrev pub is_kubernetes_controller : Text → Bool
is_kubernetes_controller c =
    c == codes "daemonset" || c == codes "replicationcontroller" || c == codes "deployment"

-- The flags of one provider are refused with the other.
unfoldable pub provider_refuses : FlagSet → Text → Bool
provider_refuses f controller =
    if f.provider == provider_openshift
    then f.chart
      || f.daemon_set
      || f.replication_controller
      || f.deployment
      || is_kubernetes_controller controller
    else if f.provider == provider_kubernetes
    then f.deployment_config
      || f.build_repo
      || f.build_branch
      || controller == codes "deploymentconfig"
    else false

unfoldable pub validate_flags : List Text → FlagSet → ConvertOptions → Outcome ConvertOptions
unfolding normalize_output provider_refuses is_valid_volume
validate_flags args f opt₀ =
    let opt = normalize_output opt₀ in
    if provider_refuses f opt.controller
    then err
    else if ltb 0 (length opt.out_file) && opt.to_stdout
    then err
    else if opt.create_chart && opt.to_stdout
    then err
    else if ltb_ℤ opt.replicas (pos 0)
    then err
    else if ltb 0 (length args)
    then err
    else if opt.generate_json && opt.generate_yaml
    then err
    else if is_valid_volume opt.volumes
    then ok opt
    else err

abbrev pub default_compose_files : List Text
default_compose_files =
    codes "compose.yaml"
    ∷ codes "compose.yml"
    ∷ codes "docker-compose.yaml"
    ∷ codes "docker-compose.yml"
    ∷ []

-- The first default file that os.Stat finds; `exists` is the file system.
unfoldable pub find_compose_file : (Text → Bool) → List Text → Option Text
find_compose_file exists [] = none
find_compose_file exists (name ∷ names) =
    if exists name then some name else find_compose_file exists names

unfoldable pub validate_compose_file :
    (Text → Bool) → List Text → ConvertOptions → Outcome ConvertOptions
unfolding find_compose_file
validate_compose_file exists default_files opt = elim opt.input_files [
  | [] ↦ (elim (find_compose_file exists default_files) [
    | none ↦ err
    | some name ↦ ok (record opt { input_files = name ∷ [] })
  ])
  | f ∷ files ↦ ok opt
]

abbrev pub count_true : Bool → ℕ
count_true true = 1
count_true false = 0

abbrev pub controller_count : ConvertOptions → ℕ
controller_count opt = count_true opt.create_d + count_true opt.create_ds + count_true opt.create_rc

abbrev pub single_output : ConvertOptions → Bool
single_output opt = ltb 0 (length opt.out_file) || opt.out_file == codes "-" || opt.to_stdout

unfoldable pub validate_controllers : ConvertOptions → Outcome ConvertOptions
validate_controllers opt =
    if opt.provider == provider_kubernetes
    then (let chosen : ConvertOptions =
          if not opt.create_d && not opt.create_ds && not opt.create_rc && opt.controller == []
          then record opt { create_d = true }
          else opt in
        if single_output opt && ltb 1 (controller_count chosen) then err else ok chosen)
    else if opt.provider == provider_openshift
    then (let chosen : ConvertOptions = record opt { create_deployment_config = true } in
        if single_output opt && ltb 1 (count_true chosen.create_deployment_config)
        then err
        else ok chosen)
    else ok opt

pub data Transformer : Type 0 where
  kubernetes : ConvertOptions → Transformer
  openshift : ConvertOptions → Transformer

unfoldable pub get_transformer : ConvertOptions → Transformer
get_transformer opt = if opt.provider == provider_kubernetes then kubernetes opt else openshift opt

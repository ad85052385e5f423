-- ===== src/Client.antt =====
-- The client library (client/convert.go and client/types.go): the options of a caller, and those that
-- it hands to the conversion.
pub mod Convert
pub mod Defaults
mod Tests
use kompose.Base.{
  Bool, true, false, ◌&&◌, ◌||◌, not, Option, none, some, List, [], ◌∷◌, Text, codes, ◌==◌,
  if◌then◌else◌,
}
use kompose.Base.Int.{ℤ, pos, eqb_ℤ}
use kompose.Base.Outcome.{Outcome, ok, err, panic, ◌>>=◌}
use kompose.Kobject.{ConvertOptions}
use kompose.App.{validate_compose_file}

pub record KubernetesProvider : Type 0 where
  pub chart : Bool
  pub controller : Option Text
  pub multi_container_mode : Bool
  pub service_group_mode : Option Text
  pub service_group_name : Text
  pub secrets_as_files : Bool

pub record OpenshiftProvider : Type 0 where
  pub deployment_config : Bool
  pub insecure_repository : Bool
  pub build_repo : Text
  pub build_branch : Text

-- The interface is empty: a value of another type is a provider, too.
pub data Provider : Type 0 where
  kubernetes : KubernetesProvider → Provider
  openshift : OpenshiftProvider → Provider
  other : Provider

pub record Options : Type 0 where
  pub build : Option Text
  pub push_image : Bool
  pub push_image_registry : Text
  pub generate_json : Bool
  pub to_stdout : Bool
  pub out_file : Text
  pub replicas : Option ℤ
  pub volume_type : Option Text
  pub pvc_request_size : Text
  pub with_kompose_annotations : Option Bool
  pub input_files : List Text
  pub profiles : List Text
  pub provider : Option Provider
  pub generate_network_policies : Bool

-- `if p == nil { p = &value }`
abbrev pub or_default {ℓ} : {A : Type ℓ} → A → Option A → Option A
or_default value none = some value
or_default value (some given) = some given

-- `*p`
abbrev pub deref {ℓ} : {A : Type ℓ} → Option A → Outcome A
deref none = panic
deref (some value) = ok value

-- The provider with a controller and a group mode, where it has none.
unfoldable pub default_kubernetes : KubernetesProvider → KubernetesProvider
default_kubernetes k = record k {
  controller = or_default [] k.controller;
  service_group_mode = or_default [] k.service_group_mode;
}

abbrev pub empty_kubernetes : KubernetesProvider
empty_kubernetes = record {
  chart = false;
  controller = none;
  multi_container_mode = false;
  service_group_mode = none;
  service_group_name = [];
  secrets_as_files = false;
}

unfoldable pub default_provider : Option Provider → Provider
unfolding default_kubernetes
default_provider none = kubernetes (default_kubernetes empty_kubernetes)
default_provider (some (kubernetes k)) = kubernetes (default_kubernetes k)
default_provider (some p) = p

unfoldable pub set_default_values : Options → Options
unfolding default_provider
set_default_values o = record o {
  replicas = or_default (pos 1) o.replicas;
  build = or_default (codes "none") o.build;
  volume_type = or_default (codes "persistentVolumeClaim") o.volume_type;
  with_kompose_annotations = or_default true o.with_kompose_annotations;
  provider = some (default_provider o.provider);
}

abbrev pub is_build : Text → Bool
is_build build = build == codes "local" || (build == codes "build-config" || build == codes "none")

abbrev pub is_volume_type : Text → Bool
is_volume_type volume =
    volume == codes "persistentVolumeClaim"
    || (volume == codes "emptyDir" || (volume == codes "hostPath" || volume == codes "configMap"))

abbrev pub is_controller : Text → Bool
is_controller controller =
    controller == []
    || (controller == codes "deployment"
        || (controller == codes "daemonSet" || controller == codes "replicationController"))

abbrev pub is_group_mode : Text → Bool
is_group_mode mode = mode == codes "label" || (mode == codes "volume" || mode == [])

-- The checks of a provider, with the kind of the build.
unfoldable pub validate_provider : Text → Option Provider → Outcome Text
validate_provider build (some (kubernetes k)) = do
  controller ← deref k.controller
  checked ← (if is_controller controller then ok controller else err)
  mode ← deref k.service_group_mode
  grouped ← (if is_group_mode mode then ok mode else err)
  if build == codes "build-config" then err else ok build
validate_provider build p = ok build

-- The kind of the build, if the options are valid.
unfoldable pub validate_options : Options → Outcome Text
unfolding validate_provider
validate_options o = do
  build ← deref o.build
  built ← (if is_build build then ok build else err)
  volume ← deref o.volume_type
  kept ← (if is_volume_type volume then ok volume else err)
  validate_provider build o.provider

-- What the helpers read from the provider: the controller and the group mode of Kubernetes.
unfoldable pub get_controller : Option Provider → Outcome Text
get_controller (some (kubernetes k)) = deref k.controller
get_controller p = ok []

unfoldable pub service_group_mode_of : Option Provider → Outcome Text
service_group_mode_of (some (kubernetes k)) = deref k.service_group_mode
service_group_mode_of p = ok []

unfoldable pub create_controller : Text → Option Provider → Outcome Bool
create_controller kind (some (kubernetes k)) = do
  controller ← deref k.controller
  ok (controller == kind)
create_controller kind p = ok false

-- The provider's own values, or the zero values of another provider.
abbrev pub kubernetes_of : Option Provider → KubernetesProvider
kubernetes_of (some (kubernetes k)) = k
kubernetes_of p = empty_kubernetes

abbrev pub openshift_of : Option Provider → OpenshiftProvider
openshift_of (some (openshift p)) = p
openshift_of p = record {
  deployment_config = false;
  insecure_repository = false;
  build_repo = [];
  build_branch = [];
}

unfoldable pub create_deployment_config : Option Provider → Bool
create_deployment_config (some (openshift p)) = true
create_deployment_config p = false

unfoldable pub get_provider : Option Provider → Text
get_provider (some (openshift p)) = codes "openshift"
get_provider p = codes "kubernetes"

-- It returns the repository.
unfoldable pub build_branch_of : Option Provider → Text
build_branch_of p = (openshift_of p).build_repo

-- The options of the conversion.
unfoldable pub convert_options : Options → Outcome ConvertOptions
unfolding get_controller service_group_mode_of create_controller create_deployment_config
    get_provider build_branch_of
convert_options o = do
  replicas ← deref o.replicas
  build ← deref o.build
  volumes ← deref o.volume_type
  annotate ← deref o.with_kompose_annotations
  deployment ← create_controller (codes "deployment") o.provider
  daemon_set ← create_controller (codes "daemonSet") o.provider
  replication ← create_controller (codes "replicationController") o.provider
  controller ← get_controller o.provider
  mode ← service_group_mode_of o.provider
  ok (record {
    to_stdout = o.to_stdout;
    create_d = deployment;
    create_rc = replication;
    create_ds = daemon_set;
    create_deployment_config = create_deployment_config o.provider;
    build_repo = (openshift_of o.provider).build_repo;
    build_branch = build_branch_of o.provider;
    build = build;
    profiles = o.profiles;
    push_image = o.push_image;
    push_image_registry = o.push_image_registry;
    create_chart = (kubernetes_of o.provider).chart;
    generate_yaml = true;
    generate_json = o.generate_json;
    store_manifest = false;
    empty_vols = false;
    volumes = volumes;
    pvc_request_size = o.pvc_request_size;
    insecure_repository = (openshift_of o.provider).insecure_repository;
    replicas = replicas;
    input_files = o.input_files;
    out_file = o.out_file;
    provider = get_provider o.provider;
    namespace = [];
    controller = controller;
    is_deployment_flag = deployment;
    is_daemon_set_flag = daemon_set;
    is_replication_controller_flag = replication;
    is_replica_set_flag = not (eqb_ℤ replicas (pos 0));
    is_deployment_config_flag = create_deployment_config o.provider;
    is_namespace_flag = false;
    build_command = [];
    push_command = [];
    server = [];
    yaml_indent = pos 2;
    with_kompose_annotation = annotate;
    multiple_container_mode = (kubernetes_of o.provider).multi_container_mode;
    service_group_mode = mode;
    service_group_name = (kubernetes_of o.provider).service_group_name;
    secrets_as_files = (kubernetes_of o.provider).secrets_as_files;
    generate_network_policies = o.generate_network_policies;
    no_interpolate = false;
  })

-- Convert up to the call of the package app, which reads the compose file and transforms it.
unfoldable pub prepare : (Text → Bool) → List Text → Options → Outcome ConvertOptions
unfolding set_default_values validate_options convert_options validate_compose_file
prepare exists default_files given =
    let o = set_default_values given in
    do
      build ← validate_options o
      opt ← convert_options o
      validate_compose_file exists default_files opt

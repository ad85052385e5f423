-- ===== src/Openshift/Objects.antt =====
-- The objects that only OpenShift has (pkg/transformer/openshift/openshift.go and utils.go). What git
-- prints, the variables of the environment and the conversions of numbers are parameters.
use kompose.Base.{
  ℕ, Bool, ◌||◌, not, Option, none, some, List, [], ◌∷◌, ◌++◌, Text, codes, ◌==◌, split, get_last?,
  length, ltb, trim, trim_right, nat_eq, if◌then◌else◌,
}
use kompose.Base.Int.{ℤ, to_int32}
use kompose.Base.Dict.{Dict}
use kompose.Base.Outcome.{Outcome, ok, panic, ◌>>=◌}
use kompose.Base.Sorting.{sort_stable}
use kompose.Host.{Host}
use kompose.Kobject.{EnvVar, ServiceConfig, ConvertOptions}
use kompose.Kobject.Update.{RollingParams, get_os_update_strategy}
use kompose.Transformer.Labels.{config_labels}
use kompose.Kubernetes.Types.{
  RuntimeObject, PodSpec, TagReference, deployment_config, image_stream, build_config, route,
}
use kompose.Kubernetes.ConfigMaps.{to_outcome}
use kompose.Kubernetes.Volumes.ConfigFiles.{has_suffix}
use kompose.Kubernetes.Workloads.{init_pod_spec, init_pod_spec_with_config_map, metadata}

pub record OpenshiftHost : Type 0 where
  pub host : Host
  pub has_git_binary : Bool
  -- what git prints in a directory: the prefix, the remote URL and the branch
  pub show_prefix : Text → Option Text
  pub get_url : Text → Option Text
  pub abbrev_ref : Text → Option Text
  pub getenv : Text → Text
  -- Duration.Seconds, and cast.ToInt64 of a duration
  pub seconds : ℤ → ℤ
  pub to_int64 : ℤ → ℤ

-- `i[len(i)-1]` of the parts between slashes, then the part behind the only colon.
unfoldable pub get_image_tag : Text → Text
unfolding split
get_image_tag image =
    let name : Text = elim (get_last? (split image b'/')) [ none ↦ image | some last ↦ last ] in
    elim (split name b':') [
      | [] ↦ codes "latest"
      | p ∷ parts ↦ (elim parts [
        | [] ↦ codes "latest"
        | tag ∷ more ↦ if ltb 0 (length more) then codes "latest" else tag
      ])
    ]

abbrev is_newline : ℕ → Bool
is_newline c = nat_eq c 10

unfoldable pub get_abs_build_context : OpenshiftHost → Text → Outcome Text
unfolding to_outcome trim
get_abs_build_context o context = do
  out ← to_outcome (o.show_prefix context)
  ok (trim is_newline out)

unfoldable pub get_git_current_remote_url : OpenshiftHost → Text → Outcome Text
unfolding to_outcome trim_right has_suffix
get_git_current_remote_url o dir = do
  out ← to_outcome (o.get_url dir)
  ok (
      if has_suffix (codes ".git") (trim_right is_newline out)
      then trim_right is_newline out
      else trim_right is_newline out ++ codes ".git")

unfoldable pub get_git_current_branch : OpenshiftHost → Text → Outcome Text
unfolding to_outcome trim_right
get_git_current_branch o dir = do
  out ← to_outcome (o.abbrev_ref dir)
  ok (trim_right is_newline out)

unfoldable pub image_tags : Text → ServiceConfig → ConvertOptions → List TagReference
unfolding get_image_tag
image_tags image s opt =
    if not (s.build == []) || not (opt.build == codes "build-config")
    then record {
      from_image = image;
      insecure = opt.insecure_repository;
      name = get_image_tag image;
    }
      ∷ []
    else []

unfoldable pub init_image_stream : Text → ServiceConfig → ConvertOptions → RuntimeObject
unfolding image_tags config_labels
init_image_stream name s opt = record {
  api_version = codes "image.openshift.io/v1";
  kind = codes "ImageStream";
  meta = metadata name (config_labels name) [];
  body = image_stream (image_tags (if s.image == [] then name else s.image) s opt);
}

-- The loop over the build arguments; `*envValue` of a nil pointer panics.
unfoldable pub build_envs : OpenshiftHost → Dict (Option Text) → Outcome (List EnvVar)
build_envs o [] = ok []
build_envs o ((name, none) ∷ build_args) = panic
build_envs o ((name, some value) ∷ build_args) =
    let rest = build_envs o build_args in
    do
      more ← rest
      ok (record { name = name; value = if value == 0 ∷ [] then o.getenv name else value } ∷ more)

unfoldable pub init_build_config :
    OpenshiftHost → Text → ServiceConfig → Text → Text → Outcome RuntimeObject
unfolding build_envs sort_stable get_abs_build_context get_image_tag config_labels
init_build_config o name s repo branch = do
  envs ← build_envs o s.build_args
  context_dir ← get_abs_build_context o s.build
  ok (record {
    api_version = codes "v1";
    kind = codes "BuildConfig";
    meta = metadata name (config_labels name) [];
    body = build_config (record {
      git_ref = branch;
      git_uri = repo;
      context_dir = context_dir;
      dockerfile_path = s.dockerfile;
      env = sort_stable (λ v. v.name) envs;
      output_image = name ++ b':' ∷ get_image_tag s.image;
    });
  })

abbrev pub one_blank : Text
one_blank = b' ' ∷ []

-- The image is left to the image stream.
unfoldable pub deployment_config_pod : Text → ServiceConfig → PodSpec
unfolding init_pod_spec init_pod_spec_with_config_map
deployment_config_pod name s =
    if ltb 0 (length s.configs)
    then init_pod_spec_with_config_map name one_blank s
    else init_pod_spec name one_blank []

unfoldable pub rolling_type_of : Option RollingParams → Text
rolling_type_of none = []
rolling_type_of (some update) = codes "Rolling"

unfoldable pub init_deployment_config :
    OpenshiftHost → Text → ServiceConfig → ℤ → Outcome RuntimeObject
unfolding deployment_config_pod rolling_type_of get_os_update_strategy get_image_tag config_labels
init_deployment_config o name s replicas = do
  update ← get_os_update_strategy o.host.to_int o.seconds o.to_int64 s.deploy_update_config
  ok (record {
    api_version = codes "apps.openshift.io/v1";
    kind = codes "DeploymentConfig";
    meta = metadata name (config_labels name) [];
    body = deployment_config (record {
      replicas = to_int32 replicas;
      strategy_type = rolling_type_of update;
      rolling_params = update;
      selector = config_labels name;
      template = record {
        labels = config_labels name;
        annotations = [];
        spec = deployment_config_pod name s;
      };
      container_names = (if s.container_name == [] then name else s.container_name) ∷ [];
      from_image = name ++ b':' ∷ get_image_tag s.image;
    });
  })

unfoldable pub init_route : Text → ServiceConfig → ℤ → RuntimeObject
unfolding config_labels
init_route name s port = record {
  api_version = codes "v1";
  kind = codes "Route";
  meta = metadata name (config_labels name) [];
  body = route (record {
    host = if s.expose_service == codes "true" then [] else s.expose_service;
    target_port = port;
    to_name = name;
  });
}

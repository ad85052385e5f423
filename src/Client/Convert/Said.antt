-- ===== src/Client/Convert/Said.antt =====
-- The flags of the command that say what the options of the library say.
use kompose.Base.{
  ◌≡◌, ◌≢◌, refl, sym, ap, subst, Bool, true, ◌&&◌, not, Option, none, some, List, [], Text, codes,
  lower, ◌==◌, if◌then◌else◌,
}
use kompose.Base.Outcome.{Outcome, ok, err, panic, ◌>>=◌, >>=-eq-ok}
use kompose.Kobject.{ConvertOptions}
use kompose.App.{FlagSet, default_compose_files}
use kompose.Client.{
  Provider, Options, kubernetes, openshift, other, deref, set_default_values, validate_options,
  create_controller, get_controller, service_group_mode_of, get_provider, convert_options, prepare,
}
use kompose.Command.Accepted.{compose_file_found}
use kompose.Command.{Flags, options_of}
use kompose.Command.Run.{is_supported}

-- The flags that are set to the options, and not --up-build.
abbrev pub flags_of : ConvertOptions → Flags
flags_of opt = record {
  out = opt.out_file;
  build_repo = opt.build_repo;
  build_branch = opt.build_branch;
  build = opt.build;
  volumes = opt.volumes;
  pvc_request_size = opt.pvc_request_size;
  chart = opt.create_chart;
  deployment = opt.create_d;
  daemon_set = opt.create_ds;
  replication_controller = opt.create_rc;
  yaml = opt.generate_yaml;
  json = opt.generate_json;
  stdout = opt.to_stdout;
  empty_vols = opt.empty_vols;
  insecure_repo = opt.insecure_repository;
  deployment_config = opt.create_deployment_config;
  replicas = opt.replicas;
  controller = opt.controller;
  profiles = opt.profiles;
  push_image = opt.push_image;
  namespace = opt.namespace;
  push_image_registry = opt.push_image_registry;
  yaml_indent = opt.yaml_indent;
  generate_network_policies = opt.generate_network_policies;
  up_build = [];
  build_command = opt.build_command;
  push_command = opt.push_command;
  with_kompose_annotation = opt.with_kompose_annotation;
  no_interpolate = opt.no_interpolate;
  multiple_container_mode = opt.multiple_container_mode;
  service_group_mode = opt.service_group_mode;
  service_group_name = opt.service_group_name;
  secrets_as_files = opt.secrets_as_files;
  global_files = opt.input_files;
  global_provider = opt.provider;
  replicas_changed = opt.is_replica_set_flag;
}

-- Which of the flags are changed.
abbrev pub changes_of : ConvertOptions → FlagSet
changes_of opt = record {
  provider = opt.provider;
  deployment_config = opt.is_deployment_config_flag;
  build_repo = not (opt.build_repo == []);
  build_branch = not (opt.build_branch == []);
  chart = opt.create_chart;
  daemon_set = opt.is_daemon_set_flag;
  replication_controller = opt.is_replication_controller_flag;
  deployment = opt.is_deployment_flag;
}

-- What the command makes of a group mode and a controller.
abbrev pub as_command : ConvertOptions → ConvertOptions
as_command opt = record opt {
  controller = lower opt.controller;
  service_group_mode =
      if opt.service_group_mode == [] && opt.multiple_container_mode
      then codes "label"
      else opt.service_group_mode;
}

-- The options of the library leave nothing to the flags but these two, and have a provider that the
-- command knows.
abbrev pub Said : ConvertOptions → Type 0
Said opt =
    (options_of (flags_of opt) (changes_of opt) ≡ as_command opt)
    × (is_supported opt.provider ≡ true)

-- A call whose value, if there is one, satisfies P.
abbrev Yields {ℓ} : {A : Type ℓ} → (A → Type 0) → Outcome A → Type 0
Yields P (ok value) = P value
Yields P err = Unit
Yields P panic = Unit

Yields-bind {ℓ κ} :
    {A : Type ℓ} {B : Type κ} (P : B → Type 0) (call : Outcome A) (next : A → Outcome B)
    → ((value : A) → Yields P (next value))
    → Yields P (call >>= next)
Yields-bind P (ok value) next f = f value
Yields-bind P err next f = tt
Yields-bind P panic next f = tt

provider_known : (p : Option Provider) → is_supported (get_provider p) ≡ true
unfolding is_supported get_provider lower ◌==◌
provider_known none = refl
provider_known (some (kubernetes k)) = refl
provider_known (some (openshift p)) = refl
provider_known (some other) = refl

convert_options-Said : (o : Options) → Yields Said (convert_options o)
unfolding convert_options options_of
convert_options-Said o = Yields-bind Said (deref o.replicas) _ (λ replicas.
    Yields-bind Said (deref o.build) _ (λ build.
      Yields-bind Said (deref o.volume_type) _ (λ volumes.
        Yields-bind Said (deref o.with_kompose_annotations) _ (λ annotate.
          Yields-bind Said (create_controller (codes "deployment") o.provider) _ (λ d.
            Yields-bind Said (create_controller (codes "daemonSet") o.provider) _ (λ ds.
              Yields-bind Said (create_controller (codes "replicationController") o.provider) _
                (λ rc. Yields-bind Said (get_controller o.provider) _ (λ controller.
                  Yields-bind Said (service_group_mode_of o.provider) _
                    (λ mode. (refl, provider_known o.provider))))))))))

Yields-ok {ℓ} :
    {A : Type ℓ} (P : A → Type 0) (call : Outcome A) (value : A)
    → Yields P call
    → call ≡ ok value
    → P value
Yields-ok P call value h e = subst (Yields P) e h

Said-files :
    (opt : ConvertOptions) (files : List Text)
    → Said opt
    → Said (record opt { input_files = files })
unfolding options_of
Said-files opt files said =
    let with_files : ConvertOptions → ConvertOptions = λ q. record q { input_files = files } in
    (ap with_files said.0, said.1)

pub prepare-Said :
    (exists : Text → Bool) (o : Options) (opt : ConvertOptions)
    → prepare exists default_compose_files o ≡ ok opt
    → Said opt × (opt.input_files ≢ [])
unfolding prepare
prepare-Said exists o opt e =
    let given = set_default_values o in
    let (build, valid, rest₁) = >>=-eq-ok (validate_options given) _ e in
    let (made, converted, rest₂) = >>=-eq-ok (convert_options given) _ rest₁ in
    let said = Yields-ok Said (convert_options given) made (convert_options-Said given) converted in
    let (named, same) = compose_file_found exists made opt rest₂ in
    (subst Said (sym same) (Said-files made opt.input_files said), named)

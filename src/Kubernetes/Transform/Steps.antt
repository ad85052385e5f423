-- ===== src/Kubernetes/Transform/Steps.antt =====
-- What Transform does for one service that stands alone
-- (pkg/transformer/kubernetes/kubernetes.go).
use kompose.Base.{
  Bool, ◌&&◌, ◌||◌, not, List, [], ◌∷◌, Text, codes, ◌==◌, length, ltb, if◌then◌else◌,
}
use kompose.Base.Dict.{Dict}
use kompose.Base.Outcome.{Outcome, ok, err, panic, ◌>>=◌, or_panic}
use kompose.Host.{Host}
use kompose.Kobject.{ServiceConfig, ConvertOptions, is_pod_controller}
use kompose.Transformer.Labels.{config_labels}
use kompose.Kubernetes.Types.{RuntimeObject, secret_data}
use kompose.Kubernetes.Formats.{format_resource_name}
use kompose.Kubernetes.Hpa.{config_horizontal_pod_scaler}
use kompose.Kubernetes.ConfigMaps.{to_outcome, parge_env_file_to_config_maps}
use kompose.Kubernetes.Workloads.{init_cj, init_pod}
use kompose.Kubernetes.Workloads.Choice.{
  create_workload_and_config_map_objects, stateful_state_controller,
}
use kompose.Kubernetes.Services.Networks.{
  config_kube_service_and_ingress_for_service, config_network_policy_for_service,
}
use kompose.Kubernetes.Controllers.{update_kubernetes_objects}

abbrev pub secret_of : Text → Text → RuntimeObject
secret_of name content = record {
  api_version = codes "v1";
  kind = codes "Secret";
  meta = record { name = name; namespace = []; labels = config_labels name; annotations = [] };
  body = secret_data (codes "Opaque") ((name, content) ∷ []);
}

-- The loop over the secrets; an external secret has no file and is skipped.
unfoldable pub create_secrets : Host → Dict Text → Outcome (List RuntimeObject)
unfolding to_outcome format_resource_name config_labels
create_secrets host [] = ok []
create_secrets host ((name, file) ∷ secrets) =
    let rest = create_secrets host secrets in
    if file == [] then rest else do
      content ← or_panic (to_outcome (host.read_file file))
      more ← rest
      ok (secret_of (format_resource_name name) content ∷ more)

-- `buildArgs[0]` panics on a command of no words; a command that fails is an error.
unfoldable pub run_words : Host → List Text → Outcome {0} Unit
run_words host [] = panic
run_words host (word ∷ words) = if host.runs (word ∷ words) then ok tt else err

-- Input files that are not given are nil.
unfoldable pub build_service_image : Host → ConvertOptions → ServiceConfig → Text → Outcome {0} Unit
unfolding run_words
build_service_image host opt s name =
    if not (opt.build_command == []) && not (opt.push_command == [])
    then (do
      built ← run_words host (host.shell_words opt.build_command)
      run_words host (host.shell_words opt.push_command))
    else if opt.build == codes "local" && (ltb 0 (length opt.input_files) && not (s.build == []))
    then (let image = if s.image == [] then name else s.image in
        let named = record s { image = image } in
        if image == []
        then err
        else if not (host.builds named name)
        then err
        else if host.pushes named name opt
        then ok tt
        else err)
    else ok tt

-- A service that is not restarted is a cron job or a pod, unless a controller is asked for.
unfoldable pub is_single_run : ServiceConfig → ConvertOptions → Bool
unfolding is_pod_controller
is_single_run s opt =
    (s.restart == codes "no" || s.restart == codes "on-failure") && not (is_pod_controller opt)

unfoldable pub initial_objects :
    Host → Text → ServiceConfig → ConvertOptions → Outcome (List RuntimeObject)
unfolding is_single_run init_cj init_pod parge_env_file_to_config_maps
    create_workload_and_config_map_objects
initial_objects host name s opt =
    if is_single_run s opt
    then (do
      env_config_maps ← parge_env_file_to_config_maps host name s opt
      ok (
          (if s.cron_job_schedule == []
            then init_pod host name s
            else init_cj name s s.cron_job_schedule s.cron_job_concurrency_policy
                s.cron_job_backoff_limit)
          ∷ env_config_maps))
    else create_workload_and_config_map_objects host name s opt

-- A stateful set has a headless service.
unfoldable pub headless_for : ConvertOptions → ServiceConfig → ServiceConfig
headless_for opt s =
    if opt.controller == stateful_state_controller
    then record s { service_type = codes "Headless" }
    else s

unfoldable pub transform_service :
    Host → ConvertOptions → Text → ServiceConfig → Outcome (List RuntimeObject)
unfolding build_service_image initial_objects headless_for
    config_kube_service_and_ingress_for_service update_kubernetes_objects
    config_network_policy_for_service config_horizontal_pod_scaler
transform_service host opt name given =
    let s = record given { with_kompose_annotation = opt.with_kompose_annotation } in
    do
      built ← build_service_image host opt s name
      initial ← initial_objects host name s opt
      served ← config_kube_service_and_ingress_for_service host name (headless_for opt s) initial
      updated ← update_kubernetes_objects host name (headless_for opt s) opt served
      ok (
          config_horizontal_pod_scaler name (headless_for opt s) (
            if opt.generate_network_policies
            then config_network_policy_for_service (headless_for opt s) updated
            else updated))

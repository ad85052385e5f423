-- ===== src/Openshift/Transform.antt =====
-- Transform of pkg/transformer/openshift/openshift.go.
pub mod Ordered
mod Tests
use kompose.Base.{
  Bool, true, false, ◌&&◌, ◌||◌, not, Option, none, some, List, [], ◌∷◌, ◌++◌, map, Text, codes,
  ◌==◌, length, ltb, if◌then◌else◌,
}
use kompose.Base.Int.{ℤ, pos, eqb_ℤ}
use kompose.Base.Dict.{Dict, lookup}
use kompose.Base.Outcome.{Outcome, ok, err, panic, ◌>>=◌, or_panic}
use kompose.Kobject.{ServiceConfig, ConvertOptions}
use kompose.Kobject.Project.{KomposeObject}
use kompose.Transformer.Annotations.{create_namespace}
use kompose.Kubernetes.Types.{RuntimeObject}
use kompose.Kubernetes.Groups.{sorted_keys}
use kompose.Kubernetes.ConfigMaps.{get_compose_file_dir, parge_env_file_to_config_maps}
use kompose.Kubernetes.Workloads.{init_cj, init_pod}
use kompose.Kubernetes.Workloads.Choice.{create_workload_and_config_map_objects, replica_of}
use kompose.Kubernetes.Services.{
  ports_exist, create_lb_service, create_service, create_headless_service,
}
use kompose.Kubernetes.Services.Networks.{first_port, with_policy}
use kompose.Kubernetes.Controllers.{update_kubernetes_objects}
use kompose.Kubernetes.Transform.{ordered_objects}
use kompose.Kubernetes.Transform.Steps.{create_secrets}
use kompose.Openshift.Objects.{
  OpenshiftHost, get_git_current_branch, get_git_current_remote_url, init_image_stream,
  init_build_config, init_deployment_config, init_route,
}

-- The variables that the loop over the services keeps.
pub record Source : Type 0 where
  pub build_repo : Text
  pub build_branch : Text

-- The service with its image, if the image could be built and pushed; a failure is fatal.
unfoldable pub build_local_image :
    OpenshiftHost → ConvertOptions → Text → ServiceConfig → Outcome ServiceConfig
build_local_image o opt name s =
    if opt.build == codes "local" && (ltb 0 (length opt.input_files) && not (s.build == []))
    then (let image = if s.image == [] then name else s.image in
        let named = record s { image = image } in
        if image == []
        then err
        else if o.host.builds named name && o.host.pushes named name opt
        then ok named
        else panic)
    else ok s

-- The branch and the repository of the build, asked of git where they are not given.
unfoldable pub find_source : OpenshiftHost → ConvertOptions → Text → Source → Outcome Source
unfolding get_git_current_branch get_git_current_remote_url
find_source o opt dir source =
    if not o.has_git_binary && (source.build_repo == [] || source.build_branch == [])
    then err
    else do
      branch ←
          (if source.build_branch == []
            then get_git_current_branch o dir
            else ok source.build_branch)
      repo ←
          (if opt.build_repo == [] then get_git_current_remote_url o dir else ok source.build_repo)
      ok (record { build_repo = repo; build_branch = branch })

-- The build config; `none` where the directory of the compose file is not found, which skips the
-- service.
unfoldable pub build_config_objects :
    OpenshiftHost
    → ConvertOptions
    → Text
    → ServiceConfig
    → Source
    → Outcome (Option (List RuntimeObject) × Source)
unfolding get_compose_file_dir find_source init_build_config
build_config_objects o opt name s source =
    if not (s.build == []) && opt.build == codes "build-config"
    then elim (get_compose_file_dir o.host opt.input_files) [
      | ok dir ↦ (do
        found ← find_source o opt dir source
        bc ← init_build_config o name s found.build_repo found.build_branch
        ok (some (bc ∷ []), found))
      | err ↦ ok (none, source)
      | panic ↦ panic
    ]
    else ok (some [], source)

unfoldable pub deployment_config_objects :
    OpenshiftHost → ConvertOptions → Text → ServiceConfig → Outcome (List RuntimeObject)
unfolding init_deployment_config init_image_stream replica_of
deployment_config_objects o opt name s =
    if opt.create_deployment_config
    then (do
      dc ←
          init_deployment_config o name s
            (if s.deploy_mode == codes "global" then pos 1 else replica_of s opt)
      ok (dc ∷ init_image_stream name s opt ∷ []))
    else ok []

-- Pods and cron jobs, or workloads with what OpenShift adds to them.
unfoldable pub openshift_objects :
    OpenshiftHost
    → ConvertOptions
    → Text
    → ServiceConfig
    → Source
    → Outcome (Option (List RuntimeObject) × Source)
unfolding init_cj init_pod parge_env_file_to_config_maps create_workload_and_config_map_objects
    deployment_config_objects build_config_objects
openshift_objects o opt name s source =
    if s.restart == codes "no" || s.restart == codes "on-failure"
    then (if opt.is_deployment_config_flag then err else (do
      env_config_maps ← parge_env_file_to_config_maps o.host name s opt
      ok (
        some (
            (if s.cron_job_schedule == []
              then init_pod o.host name s
              else init_cj name s s.cron_job_schedule s.cron_job_concurrency_policy
                  s.cron_job_backoff_limit)
            ∷ env_config_maps),
        source,
      )))
    else (do
      objects ← create_workload_and_config_map_objects o.host name s opt
      deployed ← deployment_config_objects o opt name s
      built ← build_config_objects o opt name s source
      ok (
        elim built.0 [ none ↦ none | some configs ↦ some (objects ++ deployed ++ configs) ],
        built.1,
      ))

-- The services, and the route of an exposed one.
unfoldable pub reachable_objects :
    OpenshiftHost → Text → ServiceConfig → Outcome (List RuntimeObject)
unfolding ports_exist create_lb_service create_service create_headless_service first_port init_route
reachable_objects o name s =
    if ports_exist s
    then (if s.service_type == codes "LoadBalancer"
        then ok
            (map (with_policy s.service_external_traffic_policy) (create_lb_service o.host name s))
        else (do
          svc ← create_service o.host name s
          exposed ←
              (if s.expose_service == []
                then ok []
                else (do port ← first_port svc.body; ok (init_route name s port ∷ [])))
          ok (svc ∷ exposed)))
    else if s.service_type == codes "Headless"
    then ok (create_headless_service o.host name s ∷ [])
    else ok []

unfoldable pub transform_openshift_service :
    OpenshiftHost
    → ConvertOptions
    → Text
    → ServiceConfig
    → Source
    → Outcome (List RuntimeObject × Source)
unfolding build_local_image openshift_objects reachable_objects update_kubernetes_objects
transform_openshift_service o opt name given source = do
  s ← build_local_image o opt name given
  made ← openshift_objects o opt name s source
  elim made.0 [
    | none ↦ ok ([], made.1)
    | some objects ↦ do
      reachable ← reachable_objects o name s
      updated ← update_kubernetes_objects o.host name s opt (objects ++ reachable)
      ok (updated, made.1)
  ]

-- The loop over the sorted names.
unfoldable pub transform_openshift_services :
    OpenshiftHost
    → ConvertOptions
    → Dict ServiceConfig
    → List Text
    → Source
    → Outcome (List RuntimeObject)
unfolding lookup transform_openshift_service
transform_openshift_services o opt services [] source = ok []
transform_openshift_services o opt services (name ∷ names) source = elim (lookup name services) [
  | none ↦ transform_openshift_services o opt services names source
  | some s ↦ do
    made ← transform_openshift_service o opt name s source
    more ← transform_openshift_services o opt services names made.1
    ok (made.0 ++ more)
]

unfoldable pub openshift_made :
    OpenshiftHost → KomposeObject → ConvertOptions → Outcome (List RuntimeObject)
unfolding create_namespace create_secrets transform_openshift_services sorted_keys
openshift_made o project opt = do
  secrets ← create_secrets o.host project.secrets
  objects ←
      transform_openshift_services o opt project.service_configs
        (sorted_keys project.service_configs)
        (record { build_repo = opt.build_repo; build_branch = opt.build_branch })
  ok (
      (if project.namespace == [] then [] else create_namespace project.namespace ∷ [])
      ++ secrets
      ++ objects)

unfoldable pub transform_openshift :
    OpenshiftHost → KomposeObject → ConvertOptions → Outcome (List RuntimeObject)
unfolding openshift_made ordered_objects
transform_openshift o project opt = do
  objects ← openshift_made o project opt
  ok (ordered_objects project objects)

-- ===== src/App/Convert.antt =====
-- Convert of pkg/app/app.go: the checks, the loader, the paths of the env files, the transformer and
-- what is written. What LoadFile returns is a parameter.
mod Refined
pub mod EndToEnd
pub mod Providers
pub mod Samples
mod Tests
use kompose.Base.{Bool, true, false, Option, none, some, List, [], ◌∷◌, Text, if◌then◌else◌}
use kompose.Base.Outcome.{Outcome, ok, err, panic, ◌>>=◌, or_err}
use kompose.Base.Dict.{Dict}
use kompose.Host.{Host}
use kompose.Kobject.{ServiceConfig, ConvertOptions}
use kompose.Kobject.Project.{KomposeObject}
use kompose.Kubernetes.ConfigMaps.{get_compose_file_dir}
use kompose.Kubernetes.Transform.{transform}
use kompose.Kubernetes.Types.{RuntimeObject}
use kompose.Openshift.Objects.{OpenshiftHost}
use kompose.Openshift.Transform.{transform_openshift}
use kompose.Output.Disk.{Os}
use kompose.Output.Yaml.{Codec}
use kompose.Output.Lists.{print_list}
use kompose.App.{Transformer, kubernetes, openshift, validate_controllers, get_transformer}

-- An error of any call ends the program, as log.Fatal does.
module _ (host : OpenshiftHost) (rel : Text → Text → Option Text) where
  -- The paths of a service's env files, relative to the directory of the compose file.
  unfoldable pub relative_env_files : Text → List Text → Outcome (List Text)
  relative_env_files work_dir [] = ok []
  relative_env_files work_dir (f ∷ files) =
      let rest = relative_env_files work_dir files in
      if host.host.is_abs f
      then (do path ← or_err (rel work_dir f); others ← rest; ok (path ∷ others))
      else (do others ← rest; ok (f ∷ others))

  unfoldable pub with_relative_env_files : Text → Dict ServiceConfig → Outcome (Dict ServiceConfig)
  unfolding relative_env_files
  with_relative_env_files work_dir [] = ok []
  with_relative_env_files work_dir ((name, service) ∷ services) = do
    files ← relative_env_files work_dir service.env_file
    others ← with_relative_env_files work_dir services
    ok ((name, record service { env_file = files }) ∷ others)

  unfoldable pub load_project :
      (List Text → List Text → Bool → Outcome KomposeObject)
      → ConvertOptions
      → Outcome KomposeObject
  unfolding get_compose_file_dir with_relative_env_files
  load_project load_file opt = do
    loaded ← load_file opt.input_files opt.profiles opt.no_interpolate
    work_dir ← get_compose_file_dir host.host opt.input_files
    services ← with_relative_env_files work_dir loaded.service_configs
    ok (record loaded { namespace = opt.namespace; service_configs = services })

  unfoldable pub transform_by :
      Transformer → KomposeObject → ConvertOptions → Outcome (List RuntimeObject)
  unfolding transform transform_openshift
  transform_by (kubernetes o) project opt = transform host.host project opt
  transform_by (openshift o) project opt = transform_openshift host project opt

  module _ (os : Os) (codec : Codec)
      (load_file : List Text → List Text → Bool → Outcome KomposeObject) where
    unfoldable pub convert : ConvertOptions → os.State → Outcome (List RuntimeObject × os.State)
    unfolding validate_controllers load_project get_transformer transform_by print_list
    convert options s = do
      opt ← validate_controllers options
      project ← load_project load_file opt
      objects ← transform_by (get_transformer opt) project opt
      printed ← print_list host.host os codec objects opt s
      ok (objects, printed)

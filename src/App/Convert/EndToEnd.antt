-- ===== src/App/Convert/EndToEnd.antt =====
-- A conversion for the provider kubernetes from the compose file to the files that it writes.
use kompose.Base.{◌≡◌, ◌⊎◌, Bool, true, Option, List, [], map, Text, All}
use kompose.Base.Dict.{Dict}
use kompose.Base.Outcome.{Outcome, ok}
use kompose.Kobject.{ServiceConfig, ConvertOptions}
use kompose.Kobject.Project.{KomposeObject}
use kompose.Kubernetes.Transform.{transform}
use kompose.Kubernetes.Types.{RuntimeObject}
use kompose.Openshift.Objects.{OpenshiftHost}
use kompose.Output.Disk.{Os}
use kompose.Output.Yaml.{Codec}
use kompose.Output.Lists.{final_dir_name}
use kompose.Output.Lists.Written.{IsWritten}
use kompose.App.Controllers.{IsChosen}

-- A service but for the paths of its env files, with its name.
abbrev pub without_env_file : Text × ServiceConfig → Text × ServiceConfig
without_env_file e = (e.0, record e.1 { env_file = [] })

-- The options, or the options with the deployments that are made by default.
abbrev pub IsDefaulted : ConvertOptions → ConvertOptions → Type 0
IsDefaulted options opt = (opt ≡ options) ⊎ (opt ≡ record options { create_d = true })

module _ (host : OpenshiftHost) (rel : Text → Text → Option Text) where
  -- What LoadFile reads, in the namespace of the options, and with other paths of env files.
  pub record IsLoaded (load_file : List Text → List Text → Bool → Outcome KomposeObject)
      (opt : ConvertOptions) (project : KomposeObject) : Type 0 where
    pub read : KomposeObject
    pub loaded : load_file opt.input_files opt.profiles opt.no_interpolate ≡ ok read
    pub namespace : project.namespace ≡ opt.namespace
    pub secrets : project.secrets ≡ read.secrets
    pub services :
        map without_env_file project.service_configs ≡ map without_env_file read.service_configs

  module _ (os : Os) (codec : Codec)
      (load_file : List Text → List Text → Bool → Outcome KomposeObject) where
    -- The way from the compose file to the files that are written.
    pub record IsEndToEnd (options : ConvertOptions) (dir_name : Text)
        (objects : List RuntimeObject) (s' : os.State) : Type 0 where
      pub opt : ConvertOptions
      pub project : KomposeObject
      pub defaulted : IsDefaulted options opt
      pub chosen : IsChosen opt
      pub loaded : IsLoaded load_file opt project
      pub made : transform host.host project opt ≡ ok objects
      pub written :
          All (IsWritten host.host os codec (final_dir_name dir_name options) options s') objects

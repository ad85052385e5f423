-- ===== src/Loader/Files.antt =====
-- LoadFile of pkg/loader/compose/compose.go. Reading a project, with its profiles, its environment and
-- the interpolation, is the compose library's: a parameter.
use kompose.Base.{ℕ, Bool, not, Option, List, Text}
use kompose.Base.Outcome.{Outcome, ◌>>=◌, or_err}
use kompose.Host.{Host}
use kompose.Kobject.Project.{KomposeObject}
use kompose.Kubernetes.ConfigMaps.{get_compose_file_dir}
use kompose.Loader.Labels.{Cast}
use kompose.Loader.Project.{Project}
use kompose.Loader.Mapping.{docker_compose_to_kompose_mapping}

module _ (host : Host) (cast : Cast) (lookup_env : Text → Option Text)
    (read_project : Text → List Text → List Text → Bool → Option Project) where
  unfoldable pub load_file : ℕ → List Text → List Text → Bool → Outcome KomposeObject
  unfolding get_compose_file_dir docker_compose_to_kompose_mapping
  load_file fuel files profiles no_interpolate = do
    working_dir ← get_compose_file_dir host files
    project ← or_err (read_project working_dir files profiles (not no_interpolate))
    docker_compose_to_kompose_mapping cast host.shell_words host.seconds_of lookup_env fuel project

-- ===== src/Client/Convert.antt =====
-- Convert of client/convert.go as a whole: the options of the caller, then Convert of pkg/app/app.go.
pub mod Said
pub mod SameAsCommand
mod Tests
use kompose.Base.{Bool, Option, List, Text}
use kompose.Base.Outcome.{Outcome, ◌>>=◌}
use kompose.Kobject.Project.{KomposeObject}
use kompose.Kubernetes.Types.{RuntimeObject}
use kompose.Openshift.Objects.{OpenshiftHost}
use kompose.Output.Disk.{Os}
use kompose.Output.Yaml.{Codec}
use kompose.App.{default_compose_files}
use kompose.App.Convert
use kompose.Client.{Options, prepare}

module _ (host : OpenshiftHost) (rel : Text → Text → Option Text) (os : Os) (codec : Codec)
    (load_file : List Text → List Text → Bool → Outcome KomposeObject) (exists : Text → Bool) where
  unfoldable pub convert : Options → os.State → Outcome (List RuntimeObject × os.State)
  unfolding prepare Convert.convert
  convert options s = do
    opt ← prepare exists default_compose_files options
    Convert.convert host rel os codec load_file opt s

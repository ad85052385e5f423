-- ===== src/Command/Run.antt =====
-- A run of `kompose convert`: PersistentPreRun of the root command (cmd/root.go), then PreRun and Run
-- (cmd/convert.go).
pub mod Finished
mod Tests
use kompose.Base.{
  ◌≡◌, ◌⊎◌, ==_iff, arith, ◌==◌, Bool, ◌||◌, Option, none, some, List, Text, lower, if◌then◌else◌,
}
use kompose.Base.Outcome.{Outcome, ok, err, ◌>>=◌}
use kompose.Kobject.Project.{KomposeObject}
use kompose.Kubernetes.Types.{RuntimeObject}
use kompose.Openshift.Objects.{OpenshiftHost}
use kompose.Output.Disk.{Os}
use kompose.Output.Yaml.{Codec}
use kompose.App.{FlagSet, provider_kubernetes, provider_openshift}
use kompose.App.Convert.{convert}
use kompose.Command.{Flags, pre_run}

unfoldable pub is_supported : Text → Bool
unfolding lower
is_supported provider =
    lower provider == provider_kubernetes || lower provider == provider_openshift

-- The files of COMPOSE_FILE, if it is set, replace those of --file where that flag is not changed.
unfoldable pub with_compose_file : Bool → Option (List Text) → Flags → Flags
with_compose_file changed none v = v
with_compose_file changed (some files) v = if changed then v else record v { global_files = files }

unfoldable pub persistent_pre_run : Bool → Option (List Text) → Flags → Outcome Flags
unfolding is_supported with_compose_file
persistent_pre_run changed compose_file v =
    if is_supported v.global_provider then ok (with_compose_file changed compose_file v) else err

-- The flag --provider and the variable GlobalProvider are one.
abbrev pub flag_set_of : FlagSet → Flags → FlagSet
flag_set_of f v = record f { provider = v.global_provider }

module _ (host : OpenshiftHost) (rel : Text → Text → Option Text) (os : Os) (codec : Codec)
    (load_file : List Text → List Text → Bool → Outcome KomposeObject) (exists : Text → Bool) where
  unfoldable pub run :
      List Text
      → FlagSet
      → Bool
      → Option (List Text)
      → Flags
      → os.State
      → Outcome (List RuntimeObject × os.State)
  unfolding persistent_pre_run pre_run convert
  run args f changed compose_file given s = do
    v ← persistent_pre_run changed compose_file given
    opt ← pre_run exists args (flag_set_of f v) v
    convert host rel os codec load_file opt s

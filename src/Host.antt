-- ===== src/Host.antt =====
-- What the program gets from outside the repository: its command line, the file system, and the
-- packages that read quantities, durations and env files. It is a parameter of all that uses it.
pub mod Files
pub mod Samples
use kompose.Base.{ℕ, Bool, Option, List, Text}
use kompose.Base.Int.{ℤ}
use kompose.Base.Dict.{Dict}
use kompose.Base.Outcome.{Outcome}
use kompose.Host.Files.{FileTree}
use kompose.Kobject.{ServiceConfig, ConvertOptions}

pub record Host : Type 0 where
  -- os.Args, and what `kompose version` prints
  pub args : List Text
  pub version_output : Text
  -- version.GITCOMMIT, set by the linker
  pub git_commit : Text
  -- filepath.Abs, filepath.Dir, filepath.IsAbs and filepath.Join
  pub abs_path : Text → Option Text
  pub dir_of : Text → Text
  pub is_abs : Text → Bool
  pub join_path : Text → Text → Text
  -- what stands at a path
  pub stat : Text → Option FileTree
  pub read_file : Text → Option Text
  -- the variables of an env file (godotenv), and with a lookup for references (compose-go's dotenv)
  pub read_variables : Text → Option (Dict Text)
  pub read_with_lookup : (Text → Option Text) → Text → Option (Dict Text)
  -- util.IsText and base64.StdEncoding
  pub is_text : Text → Bool
  pub encode_to_string : Text → Text
  -- resource.ParseQuantity succeeds, and the whole seconds of a duration that time.ParseDuration reads
  pub is_quantity : Text → Bool
  pub seconds_of : Text → Option ℤ
  -- the keys of the env file of a service, for ConfigEnvs
  pub read_env : Text → Outcome (List Text)
  -- the order in which a set is visited
  pub visit : List Text → List Text
  -- the words of a command (go-shellwords), and whether running them succeeds
  pub shell_words : Text → List Text
  pub runs : List Text → Bool
  -- whether the image of a service could be built and pushed under the name
  pub builds : ServiceConfig → Text → Bool
  pub pushes : ServiceConfig → Text → ConvertOptions → Bool
  -- the package cast
  pub to_int : ℕ → ℤ
  pub to_int32 : ℕ → ℤ

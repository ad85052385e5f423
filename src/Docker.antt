-- ===== src/Docker.antt =====
-- Building, tagging and pushing images (pkg/utils/docker, and BuildDockerImage and
-- PushDockerImageWithOpt of pkg/transformer/utils.go). The clients of docker are a parameter; each of
-- their calls is recorded in a log.
pub mod Push
mod Tests
use kompose.Base.{
  Bool, true, false, Option, none, some, List, [], ◌∷◌, ◌++◌, Text, codes, ◌==◌, if◌then◌else◌,
}
use kompose.Base.Dict.{Dict, lookup, insert}
use kompose.Base.Outcome.{Outcome, ok, err, panic, ◌>>=◌, or_err}
use kompose.Kobject.{ServiceConfig, ConvertOptions}

-- What the docker parser says of the name of an image.
pub record Image : Type 0 where
  pub name : Text
  pub short_name : Text
  pub tag : Text
  pub registry : Text
  pub repository : Text
  pub remote : Text

-- dockerlib.BuildArg
pub record BuildArg : Type 0 where
  pub name : Text
  pub value : Text

pub data Call : Type 0 where
  -- the client's BuildImage: the directory, the name, the Dockerfile, the arguments and the target
  build : Text → Text → Text → List BuildArg → Text → Call
  -- the program docker with its arguments
  command : List Text → Call
  -- the client's TagImage: the image, the repository and the tag
  tag : Text → Text → Text → Call
  -- the client's PushImage: the repository, the tag, the registry and the user
  push : Text → Text → Text → Text → Call

-- The result of reading the docker configuration, a map from registries to users. The pointer that
-- comes with an error may be nil.
pub data Credentials : Type 0 where
  loaded : Dict Text → Credentials
  failed : Option (Dict Text) → Credentials

pub record Docker : Type 0 where
  pub parse : Text → Option Image
  -- docker.Client() returns a client
  pub connects : Bool
  pub succeeds : Call → Bool
  pub credentials : Credentials
  -- the environment: the working directory, a variable, strconv.ParseBool
  pub getwd : Option Text
  pub getenv : Text → Text
  pub parse_bool : Text → Bool
  -- package path and os.Stat
  pub is_abs : Text → Bool
  pub join_path : Text → Text → Text
  pub stat : Text → Bool
  -- archive.CreateTarball packs the directory
  pub packs : Text → Bool

abbrev pub Log : Type 0
Log = List Call

-- handleDockerRegistry: the credentials of the legacy address count for docker.io as well.
unfoldable pub handle_docker_registry : Dict Text → Dict Text
unfolding lookup insert
handle_docker_registry configs = elim (lookup (codes "https://index.docker.io/v1/") configs) [
  | none ↦ configs
  | some user ↦ insert (codes "docker.io") user configs
]

-- The user for a registry, with a name for those that have none.
unfoldable pub user_of : Text → Dict Text → Text
unfolding lookup
user_of registry configs = elim (lookup registry configs) [ none ↦ codes "docker" | some u ↦ u ]

-- append(args, ...) for each build argument
unfoldable pub build_arg_flags : List BuildArg → List Text
build_arg_flags [] = []
build_arg_flags (a ∷ args) =
    codes "--build-arg" ∷ (a.name ++ codes "=" ++ a.value) ∷ build_arg_flags args

-- The arguments of buildDockerCli.
unfoldable pub cli_args : Text → Text → Text → List BuildArg → Text → List Text
unfolding build_arg_flags
cli_args source image dockerfile args target =
    (codes "build" ∷ codes "-t" ∷ image ∷ [])
    ++ ((if dockerfile == [] then [] else codes "-f" ∷ dockerfile ∷ [])
        ++ (build_arg_flags args
            ++ (source ∷ (if target == [] then [] else (codes "--target=" ++ target) ∷ []))))

module _ (docker : Docker) where
  abbrev pub do_call : Call → Log → Outcome Log
  do_call call log = if docker.succeeds call then ok (log ++ call ∷ []) else err

  -- The name of the image, in the registry of the command line if there is one.
  unfoldable pub parse_image : Text → Text → Outcome Image
  parse_image full_image_name target_registry = do
    image ← or_err (docker.parse full_image_name)
    if target_registry == []
        then ok image
        else or_err (docker.parse (docker.join_path target_registry image.name))

  unfoldable pub build_docker_client : Text → Text → Text → List BuildArg → Text → Log → Outcome Log
  build_docker_client source image dockerfile args target log =
      if docker.packs (source ++ codes "/")
      then do_call (build source image dockerfile args target) log
      else err

  unfoldable pub build_image : Text → Text → Text → List BuildArg → Text → Log → Outcome Log
  unfolding build_docker_client cli_args
  build_image source image dockerfile args target log =
      if docker.parse_bool (docker.getenv (codes "DOCKER_BUILDKIT"))
      then do_call (command (cli_args source image dockerfile args target)) log
      else build_docker_client source image dockerfile args target log

  unfoldable pub build_args_of : Dict (Option Text) → List BuildArg
  build_args_of [] = []
  build_args_of ((name, value) ∷ args) =
      record { name = name; value = elim value [ none ↦ docker.getenv name | some v ↦ v ] }
      ∷ build_args_of args

  unfoldable pub build_docker_image : ServiceConfig → Text → Log → Outcome Log
  unfolding build_args_of build_image
  build_docker_image s name log = do
    wd ← or_err docker.getwd
    let image_path = if docker.is_abs s.build then s.build else docker.join_path wd s.build
    let image_name = if s.image == [] then name else s.image
    if docker.stat image_path
        then (if docker.connects
            then build_image image_path image_name s.dockerfile (build_args_of s.build_args)
                s.build_target log
            else err)
        else err

  unfoldable pub tag_image : Image → Log → Outcome Log
  tag_image image log = do_call (tag image.short_name image.repository image.tag) log

  -- `credentials.Configs` reads through the pointer, also after an error.
  unfoldable pub configs_of : Credentials → Outcome (Dict Text)
  unfolding handle_docker_registry
  configs_of (loaded configs) = ok (handle_docker_registry configs)
  configs_of (failed none) = panic
  configs_of (failed (some configs)) = ok configs

  unfoldable pub push_image : Image → Log → Outcome Log
  unfolding configs_of user_of
  push_image image log = do
    configs ← configs_of docker.credentials
    do_call (push image.repository image.tag image.registry (user_of image.registry configs)) log

  -- Only for a registry of the command line.
  unfoldable pub tag_into : Text → Image → Log → Outcome Log
  unfolding tag_image
  tag_into registry image log = if registry == [] then ok log else tag_image image log

  unfoldable pub push_docker_image_with_opt : ServiceConfig → ConvertOptions → Log → Outcome Log
  unfolding parse_image tag_into push_image
  push_docker_image_with_opt s opt log =
      if opt.push_image
      then (if s.image == [] then ok log else (do
        image ← parse_image s.image opt.push_image_registry
        tagged ← (if docker.connects then tag_into opt.push_image_registry image log else err)
        push_image image tagged))
      else ok log

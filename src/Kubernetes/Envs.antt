-- ===== src/Kubernetes/Envs.antt =====
-- ConfigEnvs of pkg/transformer/kubernetes/kubernetes.go. What the env files hold is a parameter: the
-- keys of a file that stands under the directory of the compose file, or how reading it ends.
pub mod Sorted
mod Tests
use kompose.Base.{
  ℕ, Bool, true, false, Option, none, some, List, [], ◌∷◌, ◌++◌, map, Text, codes, ◌==◌, any,
  if◌then◌else◌,
}
use kompose.Base.Outcome.{Outcome, ok, err, panic, ◌>>=◌}
use kompose.Base.Sorting.{sort_stable}
use kompose.Kobject.{EnvVar, ServiceConfig}
use kompose.Base.Substrings.{contains_text}
use kompose.Kubernetes.Formats.{format_env_name, format_resource_name}

-- The name is a key of an env file.
unfoldable pub is_from_file : Text → List Text → Bool
is_from_file name keys = any (λ k. k == name) keys

-- The path of a secret is made a resource name.
unfoldable pub env_of : EnvVar → EnvVar
unfolding format_resource_name contains_text
env_of v =
    if contains_text v.value (codes "run/secrets")
    then record v { value = format_resource_name v.value }
    else v

-- The loop over the environment.
unfoldable pub visible_envs : List Text → List EnvVar → List EnvVar
unfolding is_from_file env_of
visible_envs keys [] = []
visible_envs keys (v ∷ environment) =
    let rest = visible_envs keys environment in
    if is_from_file v.name keys then rest else env_of v ∷ rest

module _ (read_env : Text → Outcome (List Text)) where
  -- The loop over the env files: the config maps, and the keys of the files.
  unfoldable pub load_env_files : Text → List Text → Outcome (List Text × List Text)
  unfolding format_env_name
  load_env_files name [] = ok ([], [])
  load_env_files name (file ∷ files) =
      let rest = load_env_files name files in
      do
        env_name ← format_env_name file name
        keys ← read_env file
        more ← rest
        ok (env_name ∷ more.0, keys ++ more.1)

  -- The variables, and the config maps of the env files.
  unfoldable pub config_envs : ServiceConfig → Outcome (List EnvVar × List Text)
  unfolding load_env_files visible_envs sort_stable
  config_envs s = do
    files ← load_env_files s.name s.env_file
    ok (sort_stable (λ v. v.name) (visible_envs files.1 s.environment), files.0)

-- ===== src/Kubernetes/Envs/Sorted.antt =====
-- The variables of a container are in order, and which they are.
use kompose.Base.{
  Bool, ◌≡◌, inl, inr, ap, ◌∙◌, List, [], ◌∷◌, map, filter, Text, codes, ◌==◌, ==_iff, Bool-cases,
  arith, if◌then◌else◌,
}
use kompose.Base.Outcome.{Outcome, ok, >>=-eq-ok}
use kompose.Base.Sorting.{sort_stable}
use kompose.Base.Sorting.Stable.{IsSorted, sort_stable-IsSorted, sort_stable-filter}
use kompose.Kobject.{EnvVar, ServiceConfig}
use kompose.Base.Substrings.{contains_text}
use kompose.Kubernetes.Formats.{format_resource_name}
use kompose.Kubernetes.Envs.{env_of, is_from_file, visible_envs, load_env_files, config_envs}

abbrev pub env_name : EnvVar → Text
env_name v = v.name

abbrev pub is_env : Text → EnvVar → Bool
is_env name v = v.name == name

-- A variable in the container: a path of a secret is made a resource name.
abbrev pub as_listed : EnvVar → EnvVar
as_listed v =
    if contains_text v.value (codes "run/secrets")
    then record v { value = format_resource_name v.value }
    else v

visible-named :
    (name : Text) (keys : List Text) (environment : List EnvVar)
    → filter (is_env name) (visible_envs keys environment)
      ≡ (if is_from_file name keys then [] else map as_listed (filter (is_env name) environment))
unfolding visible_envs env_of
visible-named name keys [] = ground arith
visible-named name keys (v ∷ environment) = elim (Bool-cases (v.name == name)) [
  | inl e ↦
      let q : v.name ≡ name = (==_iff v.name name).0 e in
      ground (arith, e, q, ap (λ n. is_from_file n keys) q, visible-named name keys environment)
  | inr e ↦ ground (arith, e, visible-named name keys environment)
]

-- The keys of an env file, or how reading it ends.
abbrev pub Reader : Type 0
Reader = Text → Outcome (List Text)

-- The variables are sorted by their names. Those of one name are those of the service in their order,
-- with the paths of secrets made resource names, or none if an env file of the service sets the name.
pub record IsEnvironment (read : Reader) (s : ServiceConfig) (envs : List EnvVar) : Type 0 where
  pub sorted : IsSorted (map env_name envs)
  pub keys : List Text
  pub files : List Text
  pub loaded : load_env_files read s.name s.env_file ≡ ok (files, keys)
  pub named :
      (name : Text)
      → filter (is_env name) envs ≡ (
          if is_from_file name keys then [] else map as_listed (filter (is_env name) s.environment))

-- Whatever the env files hold, the variables that ConfigEnvs returns are sorted by their names, and
-- those of a name are those of the service in their order, with the paths of secrets made resource
-- names, or none if an env file of the service sets the name.
pub config_envs-IsEnvironment :
    (read_env : Reader) (s : ServiceConfig) (envs : List EnvVar) (from : List Text)
    → config_envs read_env s ≡ ok (envs, from)
    → IsEnvironment read_env s envs
unfolding config_envs
config_envs-IsEnvironment read_env s envs from h =
    let ((files, keys), loaded, e) =
      >>=-eq-ok (load_env_files read_env s.name s.env_file)
        (λ files. ok (sort_stable (λ v. v.name) (visible_envs files.1 s.environment), files.0)) h in
    let q : sort_stable env_name (visible_envs keys s.environment) ≡ envs = ground (arith, e) in
    rw⁻¹ q (record {
      sorted = sort_stable-IsSorted env_name (visible_envs keys s.environment);
      keys = keys;
      files = files;
      loaded = loaded;
      named = λ name.
          sort_stable-filter env_name name (visible_envs keys s.environment)
          ∙ visible-named name keys s.environment;
    })

-- ===== src/Kubernetes/Envs/Tests.antt =====
-- A service with two variables, one of which an env file sets.
use kompose.Base.{◌≡◌, refl, [], ◌∷◌, codes, ◌==◌, trim, has_prefix}
use kompose.Base.Outcome.{ok}
use kompose.Kobject.{EnvVar, ServiceConfig}
use kompose.Kobject.Samples.{bare_service}
use kompose.Kubernetes.Envs.{config_envs}
use kompose.Kubernetes.Envs.Sorted.{Reader, IsEnvironment, config_envs-IsEnvironment}

abbrev mode_file : Reader
mode_file file = ok (codes "MODE" ∷ [])

abbrev user_env : EnvVar
user_env = record { name = codes "USER"; value = codes "web" }

abbrev home_env : EnvVar
home_env = record { name = codes "HOME"; value = codes "/web" }

abbrev mode_env : EnvVar
mode_env = record { name = codes "MODE"; value = codes "test" }

abbrev with_env : ServiceConfig
with_env = record bare_service {
  name = codes "web";
  environment = user_env ∷ mode_env ∷ home_env ∷ [];
  env_file = codes "web.env" ∷ [];
}

configured : config_envs mode_file with_env ≡ ok (home_env ∷ user_env ∷ [], codes "web-env" ∷ [])
unfolding config_envs ◌==◌ trim has_prefix
configured = refl

config_envs-IsEnvironment_example : IsEnvironment mode_file with_env (home_env ∷ user_env ∷ [])
config_envs-IsEnvironment_example =
    config_envs-IsEnvironment mode_file with_env (home_env ∷ user_env ∷ []) (codes "web-env" ∷ [])
      configured

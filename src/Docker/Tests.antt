-- ===== src/Docker/Tests.antt =====
-- Pushing an image to a registry of the command line, and a machine without a docker configuration.
use kompose.Base.{◌≡◌, refl, true, false, none, some, [], ◌∷◌, ◌++◌, codes, ◌==◌}
use kompose.Base.Outcome.{panic}
use kompose.Kobject.{ServiceConfig, ConvertOptions}
use kompose.Kobject.Samples.{bare_service, bare_options}
use kompose.Docker.{tag, push, Docker, Log, loaded, failed, cli_args, push_docker_image_with_opt}

abbrev docker : Docker
docker = record {
  parse = λ name. some (record {
    name = name;
    short_name = codes "web";
    tag = codes "latest";
    registry = codes "docker.io";
    repository = codes "me/web";
    remote = name;
  });
  connects = true;
  succeeds = λ call. true;
  credentials = loaded ((codes "https://index.docker.io/v1/", codes "me") ∷ []);
  getwd = none;
  getenv = λ n. [];
  parse_bool = λ t. false;
  is_abs = λ p. true;
  join_path = λ a b. a ++ b'/' ∷ b;
  stat = λ p. true;
  packs = λ p. true;
}

abbrev web : ServiceConfig
web = record bare_service { image = codes "web" }

abbrev options : ConvertOptions
options = record bare_options { push_image = true; push_image_registry = codes "me" }

abbrev calls : Log
calls =
    tag (codes "web") (codes "me/web") (codes "latest")
    ∷ push (codes "me/web") (codes "latest") (codes "docker.io") (codes "me")
    ∷ []

-- The warning for credentials that cannot be read is followed by a read through the nil pointer.
no_configuration_panics :
    push_docker_image_with_opt (record docker { credentials = failed none }) web options [] ≡ panic
unfolding push_docker_image_with_opt ◌==◌
no_configuration_panics = refl

cli_args_of_build :
    cli_args (codes "/src") (codes "web") [] [] (codes "dev")
    ≡ codes "build" ∷ codes "-t" ∷ codes "web" ∷ codes "/src" ∷ codes "--target=dev" ∷ []
unfolding cli_args ◌==◌
cli_args_of_build = refl

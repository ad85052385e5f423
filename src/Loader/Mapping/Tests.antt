-- ===== src/Loader/Mapping/Tests.antt =====
-- A project with two services whose names are normalized alike.
use kompose.Base.{◌≡◌, refl, false, Option, none, List, [], ◌∷◌, map, Text, codes, ◌==◌}
use kompose.Base.Int.{pos}
use kompose.Base.Dict.{Dict, lookup, insert}
use kompose.Base.Outcome.{ok, err, panic}
use kompose.Kobject.{ServiceConfig}
use kompose.Kobject.Project.{KomposeObject}
use kompose.Loader.Labels.{Cast, parse_label_loop}
use kompose.Loader.Project.{ComposeService, Project}
use kompose.Loader.Mapping.{docker_compose_to_kompose_mapping, map_services}
use kompose.Loader.Mapping.Mapped.{AllMapped, docker_compose_to_kompose_mapping-AllMapped}
use kompose.Loader.Mapping.Named.{last_named, IsKept, map_services-last_named}

abbrev zero_cast : Cast
zero_cast = record {
  to_int32 = λ t. pos 0;
  to_int64 = λ t. pos 0;
  to_bool = λ t. false;
  to_int32_checked = λ t. none;
  to_text = λ n. [];
}

abbrev service : Text → Text → ComposeService
service name image = record {
  name = name;
  image = image;
  working_dir = [];
  labels = [];
  cap_add = [];
  cap_drop = [];
  expose = [];
  privileged = false;
  user = [];
  read_only = false;
  stdin_open = false;
  tty = false;
  tmpfs = [];
  container_name = [];
  entrypoint = [];
  command = [];
  hostname = [];
  domain_name = [];
  secrets = [];
  network_mode = [];
  stop_grace_period = none;
  networks = [];
  mem_limit = pos 0;
  restart = codes "unless-stopped";
  deploy = none;
  health_check = none;
  build = none;
  environment = [];
  env_files = [];
  ports = [];
  volumes = [];
  configs = [];
  group_add = [];
}

abbrev twins : Project
twins = record {
  services = service (codes "a.b") (codes "one") ∷ service (codes "a_b") (codes "two") ∷ [];
  networks = [];
  volumes = [];
  secrets = [];
  configs = [];
}

abbrev no_words : Text → List Text
no_words t = []

abbrev nothing {ℓ} : {A : Type ℓ} → Text → Option A
nothing t = none

abbrev kept : Dict ServiceConfig
kept = elim (map_services zero_cast no_words nothing nothing twins twins.services []) [
  | ok services ↦ services
  | err ↦ []
  | panic ↦ []
]

mapped : map_services zero_cast no_words nothing nothing twins twins.services [] ≡ ok kept
unfolding map_services parse_label_loop ◌==◌ insert lookup
mapped = refl

-- The first service is lost.
one_kept : map (λ e. e.1.image) kept ≡ codes "two" ∷ []
unfolding map_services parse_label_loop ◌==◌ insert lookup
one_kept = refl

abbrev object : KomposeObject
object = record {
  service_configs = kept;
  loaded_from = codes "compose";
  secrets = [];
  namespace = [];
}

handled : docker_compose_to_kompose_mapping zero_cast no_words nothing nothing 1 twins ≡ ok object
unfolding docker_compose_to_kompose_mapping map_services parse_label_loop ◌==◌ insert lookup
handled = refl

docker_compose_to_kompose_mapping-AllMapped_example : AllMapped object.service_configs
docker_compose_to_kompose_mapping-AllMapped_example =
    docker_compose_to_kompose_mapping-AllMapped zero_cast no_words nothing nothing 1 twins object
      handled

map_services-last_named_example :
    IsKept zero_cast no_words nothing nothing twins
      (last_named (codes "a-b") twins.services none)
      (lookup (codes "a-b") kept)
map_services-last_named_example =
    map_services-last_named zero_cast no_words nothing nothing twins (codes "a-b") kept mapped

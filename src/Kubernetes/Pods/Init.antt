-- ===== src/Kubernetes/Pods/Init.antt =====
-- The init container of a pod and the arguments of a container
-- (pkg/transformer/kubernetes/k8sutils.go).
use kompose.Base.{
  ℕ, Bool, true, false, ◌||◌, none, List, [], ◌∷◌, ◌++◌, map, Text, codes, ◌==◌, contains, split,
  trim, nat_eq, if◌then◌else◌,
}
use kompose.Base.Dict.{get_text}
use kompose.Kobject.{ServiceConfig}
use kompose.Kubernetes.Types.{Container, PodTemplateSpec}
use kompose.Kubernetes.Formats.{is_alphanumeric}

-- The white space of ASCII.
abbrev is_space : ℕ → Bool
is_space c = nat_eq c b' ' || nat_eq c 9 || nat_eq c 10 || nat_eq c 11 || nat_eq c 12 || nat_eq c 13

abbrev is_bracket : ℕ → Bool
is_bracket c = nat_eq c b'[' || nat_eq c b']'

-- the cutset of both quotes and the blank
abbrev is_quote_or_blank : ℕ → Bool
is_quote_or_blank c = nat_eq c 34 || nat_eq c 39 || nat_eq c b' '

unfoldable pub parse_container_commands_from_str : Text → List Text
unfolding contains split trim
parse_container_commands_from_str line =
    if line == []
    then []
    else if contains b',' line
    then map (λ c. trim is_space (trim is_quote_or_blank c))
        (split (trim is_space (trim is_bracket line)) b',')
    else line ∷ []

abbrev pub label_init_container_image : Text
label_init_container_image = codes "kompose.init.containers.image"

abbrev pub label_init_container_name : Text
label_init_container_name = codes "kompose.init.containers.name"

abbrev pub label_init_container_command : Text
label_init_container_command = codes "kompose.init.containers.command"

abbrev init_container : Text → Text → List Text → Container
init_container name image command = record {
  name = name;
  image = image;
  env = [];
  env_from = [];
  command = command;
  args = [];
  working_dir = [];
  stdin = false;
  tty = false;
  ports = [];
  volume_mounts = [];
  limits = none;
  requests = none;
  liveness_probe = none;
  readiness_probe = none;
  security_context = none;
  image_pull_policy = [];
}

-- A missing label and an empty one are the same here.
unfoldable pub fill_init_containers : ServiceConfig → PodTemplateSpec → PodTemplateSpec
unfolding get_text parse_container_commands_from_str
fill_init_containers s template =
    let image = get_text label_init_container_image s.labels in
    let name = get_text label_init_container_name s.labels in
    let command =
      parse_container_commands_from_str (get_text label_init_container_command s.labels) in
    if image == [] then template else record template {
      spec = record template.spec {
        init_containers =
            template.spec.init_containers
            ++ init_container (if name == [] then codes "init-service" else name) image command
              ∷ [];
      };
    }

-- re.ReplaceAllString(arg, `$($1)`) for the pattern `\$([a-zA-Z0-9]*)`; the flag says that the name
-- behind a dollar is being read.
unfoldable pub interpolate : Bool → Text → Text
unfolding is_alphanumeric
interpolate named [] = if named then b')' ∷ [] else []
interpolate named (c ∷ arg) =
    let within = interpolate named arg in
    let outside = c ∷ interpolate false arg in
    let opened = b'$' ∷ b'(' ∷ interpolate true arg in
    if nat_eq c b'$'
    then (if named then b')' ∷ opened else opened)
    else if named
    then (if is_alphanumeric c then c ∷ within else b')' ∷ outside)
    else outside

unfoldable pub get_container_args : ServiceConfig → List Text
unfolding interpolate
get_container_args s = map (interpolate false) s.args

-- ===== src/App/Convert/Samples.antt =====
-- A project with one web server, and the host and the libraries to convert it with.
use kompose.Base.{Bool, true, false, Option, none, some, List, [], ◌∷◌, Text, codes}
use kompose.Base.Int.{pos}
use kompose.Base.Outcome.{Outcome, ok}
use kompose.Host.Samples.{bare_host}
use kompose.Kobject.{ServiceConfig, ConvertOptions}
use kompose.Kobject.Samples.{bare_service, bare_options}
use kompose.Kobject.Project.{KomposeObject}
use kompose.Openshift.Objects.{OpenshiftHost}
use kompose.Output.Json.{scalar, mapping, end, field}
use kompose.Output.Yaml.{Codec}
use kompose.Output.Memory.{Machine}
use kompose.App.{provider_kubernetes}

abbrev pub host : OpenshiftHost
host = record {
  host = record bare_host { is_abs = λ p. true };
  has_git_binary = false;
  show_prefix = λ d. none;
  get_url = λ d. none;
  abbrev_ref = λ d. none;
  getenv = λ n. [];
  seconds = λ d. d;
  to_int64 = λ d. d;
}

abbrev pub rel : Text → Text → Option Text
rel dir path = some (codes "env")

abbrev pub codec : Codec
codec = record {
  marshal_json = λ o. some o.kind;
  marshal_json_indent = λ o. some o.kind;
  unmarshal = λ t. some (mapping (field t (scalar t) end));
  encode =
      λ n v. elim v [ mapping fs ↦ (elim fs [ end ↦ none | field k w gs ↦ some k ]) | _ ↦ none ];
}

abbrev pub web : ServiceConfig
web = record bare_service { name = codes "web"; image = codes "nginx" }

abbrev pub load : List Text → List Text → Bool → Outcome KomposeObject
load files profiles raw = ok (record {
  service_configs = (codes "web", web) ∷ [];
  loaded_from = codes "compose";
  secrets = [];
  namespace = [];
})

abbrev pub options : ConvertOptions
options = record bare_options {
  provider = provider_kubernetes;
  replicas = pos 1;
  input_files = codes "compose.yaml" ∷ [];
}

abbrev pub disk : Machine
disk = record { files = []; out = [] }

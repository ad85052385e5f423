-- ===== src/Loader/Settings.antt =====
-- Settings of a service that are read one by one (parseHealthCheck, parseNetwork, parseEnvironment
-- and getGroupAdd of pkg/loader/compose/compose.go).
mod Tests
use kompose.Base.{
  ℕ, Bool, true, false, Option, none, some, List, [], ◌∷◌, ◌++◌, Text, codes, ◌==◌, if◌then◌else◌,
}
use kompose.Base.Int.{ℤ, pos, to_int32}
use kompose.Base.Dict.{Dict, lookup}
use kompose.Base.Decimal.{atoi}
use kompose.Base.Outcome.{Outcome, ok, err, panic, ◌>>=◌}
use kompose.Kobject.{EnvVar, HealthCheck}
use kompose.Loader.Labels.{Cast}
use kompose.Loader.Names.{normalize_network_names}

-- types.HealthCheckConfig; a duration is its whole seconds as an int32. The package prints and reads a
-- duration again without loss, so that reading it cannot fail.
pub record HealthCheckConfig : Type 0 where
  pub test : Option (List Text)
  pub timeout : Option ℤ
  pub interval : Option ℤ
  pub retries : Option ℕ
  pub start_period : Option ℤ
  pub disable : Bool

abbrev pub liveness_http_get_path : Text
liveness_http_get_path = codes "kompose.service.healthcheck.liveness.http_get_path"

abbrev pub liveness_http_get_port : Text
liveness_http_get_port = codes "kompose.service.healthcheck.liveness.http_get_port"

abbrev pub liveness_tcp_port : Text
liveness_tcp_port = codes "kompose.service.healthcheck.liveness.tcp_port"

-- `Test[1:]` panics on an empty test that is not nil.
unfoldable pub drop_first : Option (List Text) → Outcome (Option (List Text))
drop_first none = ok none
drop_first (some []) = panic
drop_first (some (word ∷ words)) = ok (some words)

abbrev or_zero : Option ℤ → ℤ
or_zero none = pos 0
or_zero (some n) = n

-- The loop over the labels.
unfoldable pub read_liveness : Cast → Dict Text → HealthCheck → HealthCheck
read_liveness cast [] h = h
read_liveness cast ((key, value) ∷ labels) h = read_liveness cast labels (
    if key == liveness_http_get_path
    then record h { http_path = value }
    else if key == liveness_http_get_port
    then record h { http_port = cast.to_int32 value }
    else if key == liveness_tcp_port
    then record h { tcp_port = cast.to_int32 value }
    else h)

unfoldable pub parse_health_check : Cast → HealthCheckConfig → Dict Text → Outcome HealthCheck
unfolding drop_first read_liveness
parse_health_check cast config labels = do
  words ← drop_first config.test
  ok (
      read_liveness cast labels (record {
        test = words;
        timeout = or_zero config.timeout;
        interval = or_zero config.interval;
        retries = elim config.retries [ none ↦ pos 0 | some n ↦ to_int32 (pos n) ];
        start_period = or_zero config.start_period;
        disable = false;
        http_path = [];
        http_port = pos 0;
        tcp_port = pos 0;
      }))

-- The network under an alias: its name, or the alias where it has none.
unfoldable pub network_name : Dict Text → Text → Text
unfolding lookup
network_name networks alias = elim (lookup alias networks) [
  | none ↦ alias
  | some name ↦ if name == [] then alias else name
]

-- The loop over the networks of a service, in the order in which the map is visited.
unfoldable pub network_names : Dict Text → List Text → List Text
unfolding network_name normalize_network_names
network_names networks [] = []
network_names networks (alias ∷ aliases) =
    normalize_network_names (network_name networks alias) ∷ network_names networks aliases

-- What is appended to the networks: those of the service, or else the default of the project.
unfoldable pub parse_network : Dict Text → List Text → List Text
unfolding network_names lookup normalize_network_names
parse_network networks [] = elim (lookup (codes "default") networks) [
  | none ↦ []
  | some name ↦ normalize_network_names name ∷ []
]
parse_network networks (alias ∷ aliases) = network_names networks (alias ∷ aliases)

-- A variable without a value is that of the environment of the program, if it is set there.
unfoldable pub parse_environment : (Text → Option Text) → Dict (Option Text) → List EnvVar
parse_environment lookup_env [] = []
parse_environment lookup_env ((name, some value) ∷ environment) =
    record { name = name; value = value } ∷ parse_environment lookup_env environment
parse_environment lookup_env ((name, none) ∷ environment) =
    let rest = parse_environment lookup_env environment in
    elim (lookup_env name) [
      | none ↦ rest
      | some value ↦ record { name = name; value = value } ∷ rest
    ]

unfoldable pub get_group_add : List Text → Outcome (List ℤ)
unfolding atoi
get_group_add [] = ok []
get_group_add (i ∷ group) =
    let rest = get_group_add group in
    elim (atoi i) [ none ↦ err | some j ↦ (do more ← rest; ok (j ∷ more)) ]

-- ===== src/Loader/HealthChecks.antt =====
-- parseHealthCheckReadiness of pkg/loader/compose/compose.go. Parameters are the package cast, the
-- split of a command into words (shlex), and the whole seconds of a duration, as an int32.
pub mod Panics
mod Tests
use kompose.Base.{
  ℕ, Bool, true, false, ◌||◌, Option, none, some, List, [], ◌∷◌, Text, codes, ◌==◌, if◌then◌else◌,
  elements,
}
use kompose.Base.Int.{ℤ, pos}
use kompose.Base.Dict.{Dict}
use kompose.Base.Outcome.{Outcome, ok, err, panic, ◌>>=◌, or_err}
use kompose.Kobject.{HealthCheck}
use kompose.Loader.Labels.{Cast}

abbrev pub readiness_disable : Text
readiness_disable = codes "kompose.service.healthcheck.readiness.disable"

abbrev pub readiness_test : Text
readiness_test = codes "kompose.service.healthcheck.readiness.test"

abbrev pub readiness_interval : Text
readiness_interval = codes "kompose.service.healthcheck.readiness.interval"

abbrev pub readiness_timeout : Text
readiness_timeout = codes "kompose.service.healthcheck.readiness.timeout"

abbrev pub readiness_retries : Text
readiness_retries = codes "kompose.service.healthcheck.readiness.retries"

abbrev pub readiness_start_period : Text
readiness_start_period = codes "kompose.service.healthcheck.readiness.start_period"

abbrev pub readiness_http_get_path : Text
readiness_http_get_path = codes "kompose.service.healthcheck.readiness.http_get_path"

abbrev pub readiness_http_get_port : Text
readiness_http_get_port = codes "kompose.service.healthcheck.readiness.http_get_port"

abbrev pub readiness_tcp_port : Text
readiness_tcp_port = codes "kompose.service.healthcheck.readiness.tcp_port"

-- The zero value of the fields.
abbrev pub no_readiness : HealthCheck
no_readiness = record {
  test = none;
  timeout = pos 0;
  interval = pos 0;
  retries = pos 0;
  start_period = pos 0;
  disable = false;
  http_path = [];
  http_port = pos 0;
  tcp_port = pos 0;
}

-- `test[0]` panics on the empty list, which is left of the test NONE alone.
unfoldable pub drop_command_word : List Text → Outcome (List Text)
drop_command_word [] = panic
drop_command_word (word ∷ words) =
    if word == codes "CMD" || word == codes "CMD-SHELL" then ok words else ok (word ∷ words)

-- What is done with a test behind the loop.
unfoldable pub finish_test : HealthCheck → Outcome HealthCheck
unfolding drop_command_word
finish_test h = elim (elements h.test) [
  | [] ↦ ok h
  | word ∷ words ↦
      if word == codes "NONE"
      then (do t ← drop_command_word words; ok (record h { disable = true; test = some t }))
      else (do t ← drop_command_word (word ∷ words); ok (record h { test = some t }))
]

module _ (cast : Cast) (split_words : Text → List Text) (seconds_of : Text → Option ℤ) where
  -- One round of the loop over the labels.
  unfoldable pub read_check_label : Text → Text → HealthCheck → Outcome HealthCheck
  read_check_label key value h =
      if key == readiness_disable
      then ok (record h { disable = cast.to_bool value })
      else if key == readiness_test
      then (if value == [] then ok h else ok (record h { test = some (split_words value) }))
      else if key == readiness_http_get_path
      then ok (record h { http_path = value })
      else if key == readiness_http_get_port
      then ok (record h { http_port = cast.to_int32 value })
      else if key == readiness_tcp_port
      then ok (record h { tcp_port = cast.to_int32 value })
      else if key == readiness_interval
      then (do n ← or_err (seconds_of value); ok (record h { interval = n }))
      else if key == readiness_timeout
      then (do n ← or_err (seconds_of value); ok (record h { timeout = n }))
      else if key == readiness_retries
      then ok (record h { retries = cast.to_int32 value })
      else if key == readiness_start_period
      then (do n ← or_err (seconds_of value); ok (record h { start_period = n }))
      else ok h

  unfoldable pub read_check_labels : Dict Text → HealthCheck → Outcome HealthCheck
  unfolding read_check_label
  read_check_labels [] h = ok h
  read_check_labels ((key, value) ∷ labels) h = do
    g ← read_check_label key value h
    read_check_labels labels g

  unfoldable pub parse_health_check_readiness : Dict Text → Outcome HealthCheck
  unfolding read_check_labels finish_test
  parse_health_check_readiness labels = do h ← read_check_labels labels no_readiness; finish_test h

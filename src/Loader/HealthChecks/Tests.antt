-- ===== src/Loader/HealthChecks/Tests.antt =====
-- A readiness test that is switched off.
use kompose.Base.{◌≡◌, ◌↔◌, refl, some, none, false, List, [], ◌∷◌, Text, codes, elements, ◌==◌}
use kompose.Base.Int.{pos}
use kompose.Base.Dict.{Dict}
use kompose.Base.Outcome.{ok, panic}
use kompose.Kobject.{HealthCheck}
use kompose.Loader.Labels.{Cast}
use kompose.Loader.HealthChecks.{
  readiness_test, no_readiness, read_check_labels, parse_health_check_readiness,
}
use kompose.Loader.HealthChecks.Panics.{parse_health_check_readiness-panics}

abbrev zero_cast : Cast
zero_cast = record {
  to_int32 = λ _. pos 0;
  to_int64 = λ _. pos 0;
  to_bool = λ _. false;
  to_int32_checked = λ _. none;
  to_text = λ _. [];
}

abbrev one_word : Text → List Text
one_word command = command ∷ []

abbrev labels : Dict Text
labels = (readiness_test, codes "NONE") ∷ []

parse_health_check_readiness-panics_example :
    (parse_health_check_readiness zero_cast one_word (λ _. some (pos 1)) labels ≡ panic) ↔ (
      (h : HealthCheck) × (read_check_labels zero_cast one_word
          (λ _. some (pos 1))
          labels
          no_readiness
        ≡ ok h)
      × (elements h.test ≡ codes "NONE" ∷ []))
parse_health_check_readiness-panics_example =
    parse_health_check_readiness-panics zero_cast one_word (λ _. some (pos 1)) labels

none_panics : parse_health_check_readiness zero_cast one_word (λ _. some (pos 1)) labels ≡ panic
unfolding parse_health_check_readiness ◌==◌
none_panics = refl

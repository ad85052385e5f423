-- ===== src/Loader/Settings/Tests.antt =====
-- A liveness test that is the word NONE: what is left of it makes the transformer panic.
use kompose.Base.{◌≡◌, refl, false, none, some, [], ◌∷◌, codes, ◌==◌}
use kompose.Base.Int.{pos}
use kompose.Base.Outcome.{panic, ◌>>=◌}
use kompose.Loader.Labels.{Cast}
use kompose.Loader.Settings.{HealthCheckConfig, parse_health_check}
use kompose.Kubernetes.Pods.Probes.{config_probe}

abbrev zero_cast : Cast
zero_cast = record {
  to_int32 = λ t. pos 0;
  to_int64 = λ t. pos 0;
  to_bool = λ t. false;
  to_int32_checked = λ t. none;
  to_text = λ n. [];
}

abbrev off : HealthCheckConfig
off = record {
  test = some (codes "NONE" ∷ []);
  timeout = none;
  interval = none;
  retries = none;
  start_period = none;
  disable = false;
}

none_panics : (parse_health_check zero_cast off [] >>= config_probe) ≡ panic
unfolding parse_health_check config_probe ◌==◌
none_panics = refl

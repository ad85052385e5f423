-- ===== src/Kobject/Tests.antt =====
-- The rolling updates at a concrete configuration.
use kompose.Base.{◌≡◌, refl, ◌==◌, some, codes}
use kompose.Base.Int.{ℤ, pos, to_int32}
use kompose.Base.Outcome.{panic}
use kompose.Kobject.{UpdateConfig}
use kompose.Kobject.Update.{get_kubernetes_update_strategy, get_os_update_strategy}

abbrev one_by_one : UpdateConfig
one_by_one = record { parallelism = some 1; delay = pos 5000000000; order = codes "stop-first" }

-- Durations in whole seconds.
abbrev whole_seconds : ℤ → ℤ
whole_seconds d = pos 5

abbrev nanoseconds : ℤ → ℤ
nanoseconds d = d

stop_first_panics : get_os_update_strategy pos whole_seconds nanoseconds one_by_one ≡ panic
unfolding get_os_update_strategy ◌==◌
stop_first_panics = refl

kubernetes_stop_first :
    get_kubernetes_update_strategy pos one_by_one
    ≡ some (record { max_unavailable = some (pos 1); max_surge = some (pos 0) })
unfolding get_kubernetes_update_strategy ◌==◌ to_int32
kubernetes_stop_first = refl

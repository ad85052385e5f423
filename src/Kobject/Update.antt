-- ===== src/Kobject/Update.antt =====
-- The rolling update of a workload from compose's update_config (pkg/kobject/kobject.go). The
-- float arithmetic of Duration.Seconds and the conversions of the package cast are parameters.
use kompose.Base.{ℕ, Option, none, some, codes, ◌==◌, if◌then◌else◌}
use kompose.Base.Int.{ℤ, pos, eqb_ℤ, to_int32}
use kompose.Base.Outcome.{Outcome, ok, panic, ◌>>=◌}
use kompose.Kobject.{UpdateConfig}

-- v1.RollingUpdateDeployment: int-or-string values that are always ints here
pub record RollingUpdate : Type 0 where
  pub max_unavailable : Option ℤ
  pub max_surge : Option ℤ

-- deployapi.RollingDeploymentStrategyParams
pub record RollingParams : Type 0 where
  pub update_period_seconds : Option ℤ
  pub os_max_unavailable : Option ℤ
  pub os_max_surge : Option ℤ

-- `r := deployapi.RollingDeploymentStrategyParams{}`
abbrev fresh : RollingParams
fresh = record { update_period_seconds = none; os_max_unavailable = none; os_max_surge = none }

-- `*p = v`
abbrev write_through : Option ℤ → ℤ → Outcome (Option ℤ)
write_through none v = panic
write_through (some old) v = ok (some v)

module _ (to_int : ℕ → ℤ) where
  -- `if config.Parallelism != nil { v := intstr.FromInt(cast.ToInt(*config.Parallelism)) }`
  unfoldable pub parallel : Option ℕ → Option ℤ
  parallel none = none
  parallel (some n) = some (to_int32 (to_int n))

  unfoldable pub get_kubernetes_update_strategy : UpdateConfig → Option RollingUpdate
  unfolding parallel
  get_kubernetes_update_strategy config =
      if config.order == codes "stop-first"
      then some (record { max_unavailable = parallel config.parallelism; max_surge = some (pos 0) })
      else if config.order == codes "start-first"
      then some (record { max_unavailable = some (pos 0); max_surge = parallel config.parallelism })
      else none

  -- the seconds of a delay, and the number that cast.ToInt64 makes of the configured delay
  module _ (seconds to_int64 : ℤ → ℤ) where
    -- One second where no delay is given, in nanoseconds.
    unfoldable pub delay_of : ℤ → ℤ
    delay_of d = if eqb_ℤ d (pos 0) then pos 1000000000 else d

    unfoldable pub get_os_update_strategy : UpdateConfig → Outcome (Option RollingParams)
    unfolding parallel delay_of
    get_os_update_strategy config =
        let interval = seconds (delay_of config.delay) in
        if config.order == codes "stop-first"
        then (let r : RollingParams = record fresh {
          os_max_unavailable = parallel config.parallelism;
        } in
            do
              surge ← write_through r.os_max_surge (pos 0)
              ok (some (record r { os_max_surge = surge; update_period_seconds = some interval })))
        else if config.order == codes "start-first"
        then ok (
            some (record fresh {
              os_max_surge = parallel config.parallelism;
              os_max_unavailable = some (pos 0);
              update_period_seconds = some interval;
            }))
        else if eqb_ℤ (to_int64 config.delay) (pos 0)
        then ok none
        else ok (some (record fresh { update_period_seconds = some interval }))

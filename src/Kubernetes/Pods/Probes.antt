-- ===== src/Kubernetes/Pods/Probes.antt =====
-- The probes of a container (configProbe of pkg/transformer/kubernetes/podspec.go).
use kompose.Base.{
  ◌≡◌, ◌↔◌, refl, Bool, true, false, Bool-cases, ◌⊎◌, ◌&&◌, ◌||◌, not, Option, none, some, List, [],
  ◌∷◌, Text, ◌==◌, ==_iff, elements, arith, if◌then◌else◌,
}
use kompose.Base.Int.{ℤ, pos, eqb_ℤ, eqb_ℤ_iff}
use kompose.Base.Outcome.{Outcome, ok, err, panic}
use kompose.Kobject.{HealthCheck}
use kompose.Kubernetes.Types.{Probe, ProbeHandler, exec, http_get, tcp_socket}

abbrev pub is_zero : ℤ → Bool
is_zero n = eqb_ℤ n (pos 0)

abbrev is_nil : Option (List Text) → Bool
is_nil none = true
is_nil (some words) = false

-- reflect.DeepEqual(healthCheck, kobject.HealthCheck{}): a test that is empty but not nil is set.
unfoldable pub is_blank : HealthCheck → Bool
is_blank h =
    is_nil h.test
    && (is_zero h.timeout
        && (is_zero h.interval
            && (is_zero h.retries
                && (is_zero h.start_period
                    && (not h.disable
                        && (h.http_path == [] && (is_zero h.http_port && is_zero h.tcp_port)))))))

-- How the check is made; a check that says nothing of it is a panic.
unfoldable pub probe_handler : HealthCheck → Outcome ProbeHandler
probe_handler h = elim (elements h.test) [
  | word ∷ words ↦ ok (exec (word ∷ words))
  | [] ↦
      if not (h.http_path == []) && not (is_zero h.http_port)
      then ok (http_get h.http_path h.http_port)
      else if not (is_zero h.tcp_port)
      then ok (tcp_socket h.tcp_port)
      else panic
]

unfoldable pub probe_of : HealthCheck → Outcome ProbeHandler → Outcome (Option Probe)
probe_of h panic = panic
probe_of h err = err
probe_of h (ok handler) = ok (
    some (record {
      handler = handler;
      timeout_seconds = h.timeout;
      period_seconds = h.interval;
      failure_threshold = h.retries;
      initial_delay_seconds = h.start_period;
    }))

unfoldable pub config_probe : HealthCheck → Outcome (Option Probe)
unfolding is_blank probe_handler probe_of
config_probe h = if is_blank h || h.disable then ok none else probe_of h (probe_handler h)

-- The check names no command, no path with a port and no TCP port.
abbrev pub IsUndefined : HealthCheck → Type 0
IsUndefined h =
    (elements h.test ≡ []) × ((h.http_path ≡ []) ⊎ (h.http_port ≡ pos 0)) × (h.tcp_port ≡ pos 0)

handler-panics :
    (h : HealthCheck) (t : List Text)
    → elements h.test ≡ t
    → (probe_handler h ≡ panic) ↔ IsUndefined h
unfolding probe_handler
handler-panics h [] e =
    ground
      (arith, e, ==_iff h.http_path [], eqb_ℤ_iff h.http_port (pos 0), eqb_ℤ_iff h.tcp_port (pos 0))
handler-panics h (word ∷ words) e = ground (arith, e)

probe-panics : (h : HealthCheck) (o : Outcome ProbeHandler) → (probe_of h o ≡ panic) ↔ (o ≡ panic)
unfolding probe_of
probe-panics h (ok handler) = ground arith
probe-panics h err = ground arith
probe-panics h panic = ground arith

-- configProbe panics exactly for a check that is switched on, that sets some field, and that has no
-- command, no path with a port and no TCP port.
pub config_probe-panics :
    (h : HealthCheck)
    → (config_probe h ≡ panic) ↔ ((is_blank h ≡ false) × (h.disable ≡ false) × IsUndefined h)
unfolding config_probe
config_probe-panics h = ground (
  arith,
  handler-panics h (elements h.test) refl,
  probe-panics h (probe_handler h),
  Bool-cases (is_blank h),
  Bool-cases h.disable,
)

-- ===== src/Kubernetes/Pods/Security.antt =====
-- The security contexts of a pod and of its first container (SecurityContext of
-- pkg/transformer/kubernetes/podspec.go, ConfigCapabilities of kubernetes.go).
use kompose.Base.{
  Bool, true, ◌||◌, Option, none, some, List, [], ◌∷◌, Text, ◌==◌, split, length, ltb, is_some,
  if◌then◌else◌,
}
use kompose.Base.Int.{ℤ}
use kompose.Base.Decimal.{atoi}
use kompose.Base.Outcome.{Outcome, ok, panic}
use kompose.Kobject.{ServiceConfig}
use kompose.Kubernetes.Types.{PodSpec, SecurityContext, PodSecurityContext}
use kompose.Kubernetes.Pods.Probes.{is_zero}

-- The added and the dropped capabilities.
unfoldable pub config_capabilities : ServiceConfig → List Text × List Text
config_capabilities s = (s.cap_add, s.cap_drop)

-- The user and the group of the directive UID or UID:GID; a part that is no number is ignored.
unfoldable pub run_as : List Text → Option ℤ × Option ℤ
unfolding atoi
run_as (user ∷ []) = (atoi user, none)
run_as (user ∷ group ∷ []) = (atoi user, atoi group)
run_as userparts = (none, none)

unfoldable pub pod_security_context : ServiceConfig → PodSecurityContext
pod_security_context s = record {
  supplemental_groups = s.group_add;
  fs_group = if is_zero s.fs_group then none else some s.fs_group;
}

unfoldable pub container_security_context : ServiceConfig → SecurityContext
unfolding run_as config_capabilities split
container_security_context s =
    let user = if s.user == [] then (none, none) else run_as (split s.user b':') in
    let capabilities = config_capabilities s in
    record {
      privileged = if s.privileged then some true else none;
      run_as_user = user.0;
      run_as_group = user.1;
      read_only_root_filesystem = none;
      capabilities =
          if ltb 0 (length capabilities.0) || ltb 0 (length capabilities.1)
          then some capabilities
          else none;
    }

-- *securityContext != api.SecurityContext{}
unfoldable pub is_restricted : SecurityContext → Bool
is_restricted c =
    is_some c.privileged
    || (is_some c.run_as_user
        || (is_some c.run_as_group
            || (is_some c.read_only_root_filesystem || is_some c.capabilities)))

-- podSpec.Containers[0].SecurityContext = securityContext
unfoldable pub restrict_first : SecurityContext → PodSpec → Outcome PodSpec
restrict_first c pod = elim pod.containers [
  | [] ↦ panic
  | first ∷ others ↦
      ok (record pod { containers = record first { security_context = some c } ∷ others })
]

-- !reflect.DeepEqual(*podSecurityContext, api.PodSecurityContext{})
unfoldable pub restrict_pod : PodSecurityContext → PodSpec → PodSpec
restrict_pod c pod =
    if ltb 0 (length c.supplemental_groups) || is_some c.fs_group
    then record pod { security_context = some c }
    else pod

unfoldable pub finish_pod : PodSecurityContext → Outcome PodSpec → Outcome PodSpec
unfolding restrict_pod
finish_pod c (ok pod) = ok (restrict_pod c pod)
finish_pod c o = o

unfoldable pub set_security_context : ServiceConfig → PodSpec → Outcome PodSpec
unfolding pod_security_context container_security_context is_restricted restrict_first finish_pod
set_security_context s pod = finish_pod (pod_security_context s) (
    if is_restricted (container_security_context s)
    then restrict_first (container_security_context s) pod
    else ok pod)

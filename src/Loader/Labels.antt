-- ===== src/Loader/Labels.antt =====
-- parseKomposeLabels of pkg/loader/compose/compose.go. The conversions of the package cast are a
-- parameter.
pub mod Consistent
pub mod Fields
mod Tests
use kompose.Base.{
  ℕ, Bool, true, false, ◌&&◌, ◌||◌, not, Option, none, some, List, [], ◌∷◌, Text, codes, ◌==◌, trim,
  length, ltb, nat_eq, if◌then◌else◌,
}
use kompose.Base.Int.{ℤ, pos, eqb_ℤ}
use kompose.Base.Dict.{Dict, insert}
use kompose.Base.Outcome.{Outcome, ok, err, panic, ◌>>=◌, or_err}
use kompose.Kobject.{ServiceConfig}
use kompose.Loader.Names.{
  handle_service_type, handle_service_external_traffic_policy, normalize_service_names,
  label_name_override,
}

-- github.com/spf13/cast, as far as the loader uses it
pub record Cast : Type 0 where
  pub to_int32 : Text → ℤ
  pub to_int64 : Text → ℤ
  pub to_bool : Text → Bool
  pub to_int32_checked : Text → Option ℤ
  pub to_text : ℕ → Text

abbrev pub label_service_type : Text
label_service_type = codes "kompose.service.type"

abbrev pub label_service_external_traffic_policy : Text
label_service_external_traffic_policy = codes "kompose.service.external-traffic-policy"

abbrev pub label_security_context_fs_group : Text
label_security_context_fs_group = codes "kompose.security-context.fsgroup"

abbrev pub label_expose_container_to_host : Text
label_expose_container_to_host = codes "kompose.controller.port.expose"

abbrev pub label_service_expose : Text
label_service_expose = codes "kompose.service.expose"

abbrev pub label_node_port_port : Text
label_node_port_port = codes "kompose.service.nodeport.port"

abbrev pub label_service_expose_tls_secret : Text
label_service_expose_tls_secret = codes "kompose.service.expose.tls-secret"

abbrev pub label_service_expose_ingress_class_name : Text
label_service_expose_ingress_class_name = codes "kompose.service.expose.ingress-class-name"

abbrev pub label_image_pull_secret : Text
label_image_pull_secret = codes "kompose.image-pull-secret"

abbrev pub label_image_pull_policy : Text
label_image_pull_policy = codes "kompose.image-pull-policy"

abbrev pub label_container_volume_subpath : Text
label_container_volume_subpath = codes "kompose.volume.subpath"

abbrev pub label_cron_job_schedule : Text
label_cron_job_schedule = codes "kompose.cronjob.schedule"

abbrev pub label_cron_job_concurrency_policy : Text
label_cron_job_concurrency_policy = codes "kompose.cronjob.concurrency_policy"

abbrev pub label_cron_job_backoff_limit : Text
label_cron_job_backoff_limit = codes "kompose.cronjob.backoff_limit"

unfoldable pub handle_cron_job_concurrency_policy : Text → Option Text
handle_cron_job_concurrency_policy p =
    if p == codes "Allow" || p == codes "Forbid" || p == codes "Replace" || p == []
    then some p
    else none

unfoldable pub handle_cron_job_schedule : Text → Option Text
handle_cron_job_schedule s = if s == [] then none else some s

-- the cutset " ,"
abbrev pub is_expose_space : ℕ → Bool
is_expose_space c = nat_eq c b' ' || nat_eq c b','

module _ (cast : Cast) where
  unfoldable pub handle_cron_job_backoff_limit : Text → Option (Option ℤ)
  handle_cron_job_backoff_limit b =
      if b == []
      then some none
      else elim (cast.to_int32_checked b) [ none ↦ none | some n ↦ some (some n) ]

  -- One round of the loop over the labels.
  unfoldable pub parse_label : Text → Text → ServiceConfig → Outcome ServiceConfig
  parse_label key value s =
      if key == label_service_type
      then (do t ← or_err (handle_service_type value); ok (record s { service_type = t }))
      else if key == label_service_external_traffic_policy
      then (do
        p ← or_err (handle_service_external_traffic_policy value)
        ok (record s { service_external_traffic_policy = p }))
      else if key == label_security_context_fs_group
      then ok (record s { fs_group = cast.to_int64 value })
      else if key == label_expose_container_to_host
      then ok (record s { expose_container_to_host = cast.to_bool value })
      else if key == label_service_expose
      then ok (record s { expose_service = trim is_expose_space value })
      else if key == label_node_port_port
      then ok (record s { node_port_port = cast.to_int32 value })
      else if key == label_service_expose_tls_secret
      then ok (record s { expose_service_tls = value })
      else if key == label_service_expose_ingress_class_name
      then ok (record s { expose_service_ingress_class_name = value })
      else if key == label_image_pull_secret
      then ok (record s { image_pull_secret = value })
      else if key == label_image_pull_policy
      then ok (record s { image_pull_policy = value })
      else if key == label_container_volume_subpath
      then ok (record s { volume_mount_sub_path = value })
      else if key == label_cron_job_schedule
      then (do c ← or_err (handle_cron_job_schedule value); ok (record s { cron_job_schedule = c }))
      else if key == label_cron_job_concurrency_policy
      then (do
        c ← or_err (handle_cron_job_concurrency_policy value)
        ok (record s { cron_job_concurrency_policy = c }))
      else if key == label_cron_job_backoff_limit
      then (do
        c ← or_err (handle_cron_job_backoff_limit value)
        ok (record s { cron_job_backoff_limit = c }))
      else if key == label_name_override
      then ok (record s { name = normalize_service_names value })
      else ok (record s { labels = insert key value s.labels })

  unfoldable pub parse_label_loop : Dict Text → ServiceConfig → Outcome ServiceConfig
  parse_label_loop [] s = ok s
  parse_label_loop ((key, value) ∷ labels) s = do
    t ← parse_label key value s
    parse_label_loop labels t

-- The checks behind the loop.
unfoldable pub check_labels : ServiceConfig → Outcome ServiceConfig
check_labels s =
    if s.expose_service == [] && not (s.expose_service_tls == [])
    then err
    else if s.expose_service == [] && not (s.expose_service_ingress_class_name == [])
    then err
    else if not (s.service_type == codes "NodePort") && not (eqb_ℤ s.node_port_port (pos 0))
    then err
    else if ltb 1 (length s.port) && not (eqb_ℤ s.node_port_port (pos 0))
    then err
    else if s.restart == codes "always" && not (s.cron_job_concurrency_policy == [])
    then ok (record s { restart = codes "on-failure" })
    else ok s

unfoldable pub parse_kompose_labels : Cast → Dict Text → ServiceConfig → Outcome ServiceConfig
unfolding check_labels
parse_kompose_labels cast labels s = do t ← parse_label_loop cast labels s; check_labels t

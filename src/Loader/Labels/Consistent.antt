-- ===== src/Loader/Labels/Consistent.antt =====
-- What a service satisfies once its labels have been read.
use kompose.Base.{◌≤◌, ◌≡◌, ◌≢◌, ◌⊎◌, [], arith, Text, codes, ==_iff, length}
use kompose.Base.Int.{pos, eqb_ℤ_iff}
use kompose.Base.Dict.{Dict}
use kompose.Base.Outcome.{ok, >>=-eq-ok}
use kompose.Kobject.{ServiceConfig}
use kompose.Loader.Labels.{Cast, parse_label_loop, check_labels, parse_kompose_labels}

-- TLS secret and ingress class need an exposed service; a node port needs the type NodePort and one
-- port at most; a cron job with a concurrency policy is not restarted always.
pub record IsConsistent (s : ServiceConfig) : Type 0 where
  pub tls : (s.expose_service ≢ []) ⊎ (s.expose_service_tls ≡ [])
  pub ingress_class : (s.expose_service ≢ []) ⊎ (s.expose_service_ingress_class_name ≡ [])
  pub node_port_type : (s.service_type ≡ codes "NodePort") ⊎ (s.node_port_port ≡ pos 0)
  pub node_port_single : (length s.port ≤ 1) ⊎ (s.node_port_port ≡ pos 0)
  pub cron_restart : (s.restart ≢ codes "always") ⊎ (s.cron_job_concurrency_policy ≡ [])

check_labels-IsConsistent : (s t : ServiceConfig) → check_labels s ≡ ok t → IsConsistent t
unfolding check_labels
check_labels-IsConsistent s t h = ground (
  arith,
  ==_iff s.expose_service [],
  ==_iff s.expose_service_tls [],
  ==_iff s.expose_service_ingress_class_name [],
  ==_iff s.service_type (codes "NodePort"),
  eqb_ℤ_iff s.node_port_port (pos 0),
  ==_iff s.restart (codes "always"),
  ==_iff s.cron_job_concurrency_policy [],
)

-- Whatever the labels and the service, after a successful parse a TLS secret or an ingress class
-- stands only with an exposed service, a node port only with the type NodePort and one port at most,
-- and no cron job with a concurrency policy is restarted always.
pub parse_kompose_labels-IsConsistent :
    (cast : Cast) (labels : Dict Text) (s t : ServiceConfig)
    → parse_kompose_labels cast labels s ≡ ok t
    → IsConsistent t
unfolding parse_kompose_labels
parse_kompose_labels-IsConsistent cast labels s t h =
    let (u, _, e) = >>=-eq-ok (parse_label_loop cast labels s) check_labels h in
    check_labels-IsConsistent u t e

-- ===== src/Kubernetes/Services.antt =====
-- The services and the ingress of a service (pkg/transformer/kubernetes/k8sutils.go and
-- kubernetes.go).
pub mod Ingress
pub mod Networks
use kompose.Base.{
  ℕ, Bool, true, false, ◌&&◌, ◌||◌, not, Option, none, some, List, [], ◌∷◌, ◌++◌, map, Text, codes,
  ◌==◌, length, ltb, if◌then◌else◌,
}
use kompose.Base.Int.{ℤ, pos}
use kompose.Base.Dict.{Dict}
use kompose.Base.Outcome.{Outcome, ok, err, panic, ◌>>=◌}
use kompose.Host.{Host}
use kompose.Kobject.{ServiceConfig}
use kompose.Transformer.Labels.{config_labels}
use kompose.Transformer.Annotations.{config_annotations}
use kompose.Kubernetes.Ports.{ServicePort, config_lb_service_ports, config_service_ports}
use kompose.Kubernetes.Types.{RuntimeObject, ServiceSpec, service}

-- len(service.Port) != 0
unfoldable pub ports_exist : ServiceConfig → Bool
ports_exist s = ltb 0 (length s.port)

-- The metadata with the annotations of the callers, and the spec that they complete.
unfoldable pub init_svc : Host → Text → ServiceConfig → ServiceSpec → RuntimeObject
unfolding config_labels config_annotations
init_svc host name s spec = record {
  api_version = codes "v1";
  kind = codes "Service";
  meta = record {
    name = s.name;
    namespace = [];
    labels = config_labels name;
    annotations = config_annotations host s;
  };
  body = service spec;
}

unfoldable pub init_svc_object : Host → Text → ServiceConfig → List ServicePort → RuntimeObject
unfolding init_svc config_labels
init_svc_object host name s ports =
    let svc = init_svc host name s (record {
      selector = config_labels s.name;
      ports = ports;
      service_type = s.service_type;
      cluster_ip = [];
      external_traffic_policy = [];
    }) in
    record svc { meta = record svc.meta { name = name } }

unfoldable pub create_lb_service : Host → Text → ServiceConfig → List RuntimeObject
unfolding init_svc_object config_lb_service_ports
create_lb_service host name s =
    let ports = config_lb_service_ports s in
    (if ltb 0 (length ports.0)
      then init_svc_object host (name ++ codes "-tcp") s ports.0 ∷ []
      else [])
    ++ (if ltb 0 (length ports.1)
        then init_svc_object host (name ++ codes "-udp") s ports.1 ∷ []
        else [])

-- The spec of a service with these ports.
unfoldable pub spec_of_service : Text → ServiceConfig → List ServicePort → ServiceSpec
unfolding config_labels
spec_of_service name s ports = record {
  selector = config_labels name;
  ports = ports;
  service_type = if s.service_type == codes "Headless" then codes "ClusterIP" else s.service_type;
  cluster_ip = if s.service_type == codes "Headless" then codes "None" else [];
  external_traffic_policy = [];
}

unfoldable pub create_service : Host → Text → ServiceConfig → Outcome RuntimeObject
unfolding init_svc spec_of_service config_service_ports
create_service host name s = do
  service_ports ← config_service_ports s
  ok (init_svc host name s (spec_of_service name s service_ports))

-- A dummy port, since a service has one at least.
abbrev pub headless_port : ServicePort
headless_port = record {
  name = codes "headless";
  port = pos 55555;
  target_int = pos 0;
  target_str = [];
  node_port = pos 0;
  protocol = [];
}

unfoldable pub create_headless_service : Host → Text → ServiceConfig → RuntimeObject
unfolding init_svc config_labels
create_headless_service host name s = init_svc host name s (record {
  selector = config_labels name;
  ports = headless_port ∷ [];
  service_type = [];
  cluster_ip = codes "None";
  external_traffic_policy = [];
})

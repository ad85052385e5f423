-- ===== src/Kubernetes/Services/Networks.antt =====
-- What makes a service reachable: its services, its ingress and its network policies
-- (pkg/transformer/kubernetes/kubernetes.go).
use kompose.Base.{List, [], ◌∷◌, ◌++◌, map, Text, codes, ◌==◌, if◌then◌else◌}
use kompose.Base.Int.{ℤ}
use kompose.Base.Outcome.{Outcome, ok, panic, ◌>>=◌}
use kompose.Host.{Host}
use kompose.Kobject.{ServiceConfig}
use kompose.Kubernetes.Types.{RuntimeObject, ObjectBody, service, network_policy}
use kompose.Kubernetes.Services.{
  ports_exist, create_lb_service, create_service, create_headless_service,
}
use kompose.Kubernetes.Services.Ingress.{init_ingress}

-- svc.Spec.Ports[0].Port
unfoldable pub first_port : ObjectBody → Outcome ℤ
first_port (service spec) = elim spec.ports [ [] ↦ panic | p ∷ ports ↦ ok p.port ]
first_port body = panic

-- svc.Spec.ExternalTrafficPolicy = policy
abbrev pub with_policy : Text → RuntimeObject → RuntimeObject
with_policy policy svc = record svc {
  body = elim svc.body [
    | service spec ↦ service (record spec { external_traffic_policy = policy })
    | other ↦ other
  ];
}

-- The ingress of the service that was made, if it is exposed.
unfoldable pub ingress_of :
    Host → Text → ServiceConfig → RuntimeObject → Outcome (List RuntimeObject)
unfolding first_port init_ingress
ingress_of host name s svc =
    if s.expose_service == []
    then ok []
    else (do port ← first_port svc.body; ok (init_ingress host name s port ∷ []))

unfoldable pub config_kube_service_and_ingress_for_service :
    Host → Text → ServiceConfig → List RuntimeObject → Outcome (List RuntimeObject)
unfolding ports_exist create_lb_service create_service create_headless_service ingress_of
config_kube_service_and_ingress_for_service host name s objects =
    if ports_exist s
    then (if s.service_type == codes "LoadBalancer"
        then ok (
            objects
            ++ map (with_policy s.service_external_traffic_policy) (create_lb_service host name s))
        else (do
          svc ← create_service host name s
          exposed ← ingress_of host name s svc
          ok (objects ++ svc ∷ exposed)))
    else if s.service_type == codes "Headless"
    then ok (objects ++ create_headless_service host name s ∷ [])
    else ok objects

abbrev network_labels : Text → List (Text × Text)
network_labels network_name = (codes "io.kompose.network/" ++ network_name, codes "true") ∷ []

unfoldable pub create_network_policy : Text → RuntimeObject
create_network_policy network_name = record {
  api_version = codes "networking.k8s.io/v1";
  kind = codes "NetworkPolicy";
  meta = record { name = network_name; namespace = []; labels = []; annotations = [] };
  body = network_policy (network_labels network_name) (network_labels network_name);
}

unfoldable pub config_network_policy_for_service :
    ServiceConfig → List RuntimeObject → List RuntimeObject
unfolding create_network_policy
config_network_policy_for_service s objects = objects ++ map create_network_policy s.network

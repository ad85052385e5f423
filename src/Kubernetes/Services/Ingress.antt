-- ===== src/Kubernetes/Services/Ingress.antt =====
-- The ingress of an exposed service (initIngress of pkg/transformer/kubernetes/kubernetes.go).
use kompose.Base.{
  Bool, false, ◌||◌, none, some, List, [], ◌∷◌, ◌++◌, map, Text, codes, ◌==◌, nat_eq, if◌then◌else◌,
}
use kompose.Base.Int.{ℤ}
use kompose.Host.{Host}
use kompose.Kobject.{ServiceConfig}
use kompose.Transformer.Labels.{config_labels, parse_ingress_path}
use kompose.Transformer.Annotations.{config_annotations}
use kompose.Kubernetes.Types.{RuntimeObject, IngressRule, IngressTls, ingress}

abbrev pub onto : Text → List Text → List Text
onto s [] = s ∷ []
onto s (t ∷ ts) = (s ++ t) ∷ ts

-- The parts between the matches of "[ ,]*,[ ,]*", with the blanks and commas that were just read and
-- whether a comma is among them.
unfoldable pub split_hosts_from : Text → Bool → Text → List Text
split_hosts_from held comma [] = if comma then [] ∷ [] ∷ [] else held ∷ []
split_hosts_from held comma (c ∷ s) =
    let more = split_hosts_from (held ++ c ∷ []) (comma || nat_eq c b',') s in
    let next = split_hosts_from [] false s in
    if nat_eq c b' ' || nat_eq c b','
    then more
    else if comma
    then [] ∷ onto (c ∷ []) next
    else onto (held ++ c ∷ []) next

unfoldable pub split_hosts : Text → List Text
unfolding split_hosts_from
split_hosts s = split_hosts_from [] false s

-- The host of an address, "true" standing for every host.
unfoldable pub tls_host : Text → Text
unfolding parse_ingress_path
tls_host address =
    let host = (parse_ingress_path address).0 in if host == codes "true" then [] else host

unfoldable pub ingress_rule : Text → ℤ → Text → IngressRule
unfolding tls_host parse_ingress_path
ingress_rule name port address =
    let path = (parse_ingress_path address).1 in
    record {
      host = tls_host address;
      path = if path == [] then codes "/" else path;
      path_type = codes "Prefix";
      service_name = name;
      service_port = port;
    }

unfoldable pub ingress_tls : ServiceConfig → List Text → List IngressTls
ingress_tls s hosts =
    if s.expose_service_tls == []
    then []
    else record {
      hosts = hosts;
      secret_name = if s.expose_service_tls == codes "true" then [] else s.expose_service_tls;
    }
      ∷ []

unfoldable pub init_ingress : Host → Text → ServiceConfig → ℤ → RuntimeObject
unfolding split_hosts ingress_rule tls_host ingress_tls config_labels config_annotations
init_ingress host name s port =
    let hosts = split_hosts s.expose_service in
    record {
      api_version = codes "networking.k8s.io/v1";
      kind = codes "Ingress";
      meta = record {
        name = name;
        namespace = [];
        labels = config_labels name;
        annotations = config_annotations host s;
      };
      body = ingress (record {
        rules = map (ingress_rule name port) hosts;
        tls = ingress_tls s (map tls_host hosts);
        ingress_class_name =
            if s.expose_service_ingress_class_name == []
            then none
            else some s.expose_service_ingress_class_name;
      });
    }

-- ===== src/Kubernetes/Ports/Tests.antt =====
-- The ports of a name server, and two services of a group that are refused.
use kompose.Base.{
  ◌≡◌, refl, ℕ, [], ◌∷◌, map, List, arith, Text, codes, ◌==◌, lower, All, AllDistinct, ◌≤◌, ◌<◌,
}
use kompose.Base.Int.{ℤ, pos}
use kompose.Base.Outcome.{ok}
use kompose.Kobject.{Ports, ServiceConfig}
use kompose.Kobject.Samples.{bare_service}
use kompose.Kubernetes.Ports.{
  ServicePort, config_ports, config_service_ports, host_port_of, service_port_of,
}
use kompose.Kubernetes.Ports.Container.{ids, config_ports-AllDistinct}
use kompose.Kubernetes.Ports.Names.{config_service_ports-AllDistinct, IsNatural, target, port_name}
use kompose.Kubernetes.Ports.Conflict.{IsSurrogatePort}

abbrev port_with : ℤ → Text → Ports
port_with n protocol = record {
  host_port = pos 0;
  container_port = n;
  host_ip = [];
  protocol = protocol;
}

abbrev name_server : ServiceConfig
name_server = record bare_service {
  port = port_with (pos 53) (codes "TCP") ∷ port_with (pos 53) (codes "UDP") ∷ [];
}

config_ports-AllDistinct_example : AllDistinct (ids (config_ports name_server))
config_ports-AllDistinct_example = config_ports-AllDistinct name_server

abbrev name_server_ports : List ServicePort
name_server_ports =
    service_port_of name_server (port_with (pos 53) (codes "TCP")) []
    ∷ service_port_of name_server (port_with (pos 53) (codes "UDP")) (pos 53 ∷ [])
    ∷ []

name_server_configured : config_service_ports name_server ≡ ok name_server_ports
unfolding config_service_ports host_port_of ◌==◌
name_server_configured = refl

named_by_protocol : map port_name name_server_ports ≡ codes "53" ∷ codes "53-udp" ∷ []
unfolding service_port_of ◌==◌ lower
named_by_protocol = refl

natural : All IsNatural name_server.port
unfolding host_port_of
natural = ((53, refl), ((53, refl), tt))

targets_distinct : AllDistinct (map target name_server.port)
unfolding host_port_of lower
targets_distinct = ((ground arith, tt), (tt, tt))

config_service_ports-AllDistinct_example : AllDistinct (map port_name name_server_ports)
config_service_ports-AllDistinct_example =
    config_service_ports-AllDistinct name_server name_server_ports name_server_configured natural
      targets_distinct

abbrev high : ℕ → ServiceConfig
high n = record bare_service { port = port_with (pos n) (codes "TCP") ∷ [] }

high-IsSurrogatePort : (n : ℕ) → 0xD800 ≤ n → n < 0xE000 → IsSurrogatePort (high n) (codes "TCP")
high-IsSurrogatePort n l h = record {
  port = port_with (pos n) (codes "TCP");
  number = n;
  single = refl;
  numbered = refl;
  over = l;
  under = h;
  with_protocol = refl;
}

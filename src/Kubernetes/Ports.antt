-- ===== src/Kubernetes/Ports.antt =====
-- The ports of containers and services (pkg/transformer/kubernetes/kubernetes.go), and the check for
-- conflicts between the services of a group.
pub mod Container
pub mod Names
pub mod Conflict
mod Tests
use kompose.Base.{
  ℕ, ◌+◌, ◌-◌, ◌/◌, ◌%◌, ◌^◌, Bool, true, false, ◌&&◌, ◌||◌, not, Option, none, some, List, [], ◌∷◌,
  ◌++◌, Text, codes, ◌==◌, lower, any, ltb, leb, nat_eq, if◌then◌else◌,
}
use kompose.Base.Int.{ℤ, pos, negsuc, eqb_ℤ}
use kompose.Base.Decimal.{itoa}
use kompose.Base.Outcome.{Outcome, ok, err, panic, ◌>>=◌}
use kompose.Kobject.{Ports, ServiceConfig, port_id}

-- api.ContainerPort
pub record ContainerPort : Type 0 where
  pub container_port : ℤ
  pub protocol : Text
  pub host_ip : Text
  pub host_port : ℤ

-- api.ServicePort; the target port has a number and a text
pub record ServicePort : Type 0 where
  pub name : Text
  pub port : ℤ
  pub target_int : ℤ
  pub target_str : Text
  pub node_port : ℤ
  pub protocol : Text

-- The text is a key of the map.
unfoldable pub has_key : Text → List Text → Bool
has_key key seen = any (λ k. k == key) seen

unfoldable pub container_port_of : Bool → Ports → ContainerPort
container_port_of exposed p = record {
  container_port = p.container_port;
  protocol = p.protocol;
  host_ip = if exposed then p.host_ip else [];
  host_port = if exposed then p.host_port else pos 0;
}

-- The loop of ConfigPorts over the ports that are left, with the ids that were seen.
unfoldable pub config_ports_from : Bool → List Ports → List Text → List ContainerPort
unfolding has_key container_port_of port_id
config_ports_from exposed [] exist = []
config_ports_from exposed (p ∷ ports) exist =
    let skip = config_ports_from exposed ports exist in
    let keep = container_port_of exposed p ∷ config_ports_from exposed ports (port_id p ∷ exist) in
    if has_key (port_id p) exist then skip else keep

unfoldable pub config_ports : ServiceConfig → List ContainerPort
unfolding config_ports_from
config_ports s = config_ports_from s.expose_container_to_host s.port []

-- `if port.HostPort == 0 { port.HostPort = port.ContainerPort }`
unfoldable pub host_port_of : Ports → ℤ
host_port_of p = if eqb_ℤ p.host_port (pos 0) then p.container_port else p.host_port

abbrev pub is_tcp : Ports → Bool
is_tcp p = p.protocol == codes "TCP"

unfoldable pub lb_service_port : Ports → ServicePort
unfolding host_port_of itoa
lb_service_port p = record {
  name = itoa (host_port_of p);
  port = host_port_of p;
  target_int = p.container_port;
  target_str = itoa p.container_port;
  node_port = pos 0;
  protocol = if is_tcp p then [] else p.protocol;
}

unfoldable pub config_lb_from :
    List Ports → List ServicePort → List ServicePort → List ServicePort × List ServicePort
unfolding lb_service_port
config_lb_from [] tcp udp = (tcp, udp)
config_lb_from (p ∷ ports) tcp udp =
    if is_tcp p
    then config_lb_from ports (tcp ++ lb_service_port p ∷ []) udp
    else config_lb_from ports tcp (udp ++ lb_service_port p ∷ [])

-- The TCP ports and the others.
unfoldable pub config_lb_service_ports : ServiceConfig → List ServicePort × List ServicePort
unfolding config_lb_from
config_lb_service_ports s = config_lb_from s.port [] []

-- The key is a number of the map `seenPorts`.
unfoldable pub has_port : ℤ → List ℤ → Bool
has_port key seen = any (λ k. eqb_ℤ k key) seen

unfoldable pub service_port_name : Ports → List ℤ → Text
unfolding has_port host_port_of itoa lower
service_port_name p seen =
    let name = itoa (host_port_of p) in
    if has_port (host_port_of p) seen then name ++ b'-' ∷ lower p.protocol else name

unfoldable pub service_port_of : ServiceConfig → Ports → List ℤ → ServicePort
unfolding service_port_name
service_port_of s p seen = record {
  name = service_port_name p seen;
  port = host_port_of p;
  target_int = p.container_port;
  target_str = itoa p.container_port;
  node_port =
      if s.service_type == codes "NodePort" && not (eqb_ℤ s.node_port_port (pos 0))
      then s.node_port_port
      else pos 0;
  protocol = if is_tcp p then [] else p.protocol;
}

-- `log.Fatalf` ends the program: `err`.
unfoldable pub config_service_ports_from :
    ServiceConfig → List Ports → List ℤ → Outcome (List ServicePort)
unfolding service_port_of
config_service_ports_from s [] seen = ok []
config_service_ports_from s (p ∷ ports) seen =
    let rest = config_service_ports_from s ports (host_port_of p ∷ seen) in
    if has_port (host_port_of p) seen && s.service_type == codes "LoadBalancer"
    then err
    else rest >>= λ r. ok (service_port_of s p seen ∷ r)

unfoldable pub config_service_ports : ServiceConfig → Outcome (List ServicePort)
unfolding config_service_ports_from
config_service_ports s = config_service_ports_from s s.port []

-- string(r) for a rune: its UTF-8 bytes, those of U+FFFD where it is no code point.
unfoldable pub rune_text : ℤ → Text
rune_text (negsuc n) = 0xEF ∷ 0xBF ∷ 0xBD ∷ []
rune_text (pos n) =
    if ltb n 0x80
    then n ∷ []
    else if ltb n 0x800
    then (0xC0 + n / 64) ∷ (0x80 + n % 64) ∷ []
    else if leb 0xD800 n && ltb n 0xE000
    then 0xEF ∷ 0xBF ∷ 0xBD ∷ []
    else if ltb n 0x10000
    then (0xE0 + n / 4096) ∷ (0x80 + n / 64 % 64) ∷ (0x80 + n % 64) ∷ []
    else if ltb n 0x110000
    then (0xF0 + n / 262144) ∷ (0x80 + n / 4096 % 64) ∷ (0x80 + n / 64 % 64) ∷ (0x80 + n % 64) ∷ []
    else 0xEF ∷ 0xBF ∷ 0xBD ∷ []

-- `string(port.ContainerPort) + string(port.Protocol)`
unfoldable pub port_use_key : ContainerPort → Text
unfolding rune_text
port_use_key p = rune_text p.container_port ++ p.protocol

-- The ports check of a group for one service: the keys used then, `none` for a conflict.
unfoldable pub use_ports : List Text → List ContainerPort → Option (List Text)
unfolding has_key port_use_key
use_ports uses [] = some uses
use_ports uses (p ∷ ports) =
    let rest = use_ports (port_use_key p ∷ uses) ports in
    if has_key (port_use_key p) uses then none else rest

unfoldable pub use_group_ports : List Text → List ServiceConfig → Option (List Text)
unfolding use_ports config_ports
use_group_ports uses [] = some uses
use_group_ports uses (s ∷ group) = elim (use_ports uses (config_ports s)) [
  | none ↦ none
  | some u ↦ use_group_ports u group
]

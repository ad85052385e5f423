-- ===== src/Loader/Ports.antt =====
-- loadPorts of pkg/loader/compose/compose.go.
pub mod Exposed
mod Tests
use kompose.Base.{
  ℕ, Bool, true, false, List, [], ◌∷◌, ◌++◌, Text, codes, ◌==◌, contains, split, upper, any,
  if◌then◌else◌,
}
use kompose.Base.Int.{ℤ, pos, to_int32}
use kompose.Kobject.{Ports}
use kompose.Loader.Labels.{Cast}

-- types.ServicePortConfig: what the loader reads
pub record ServicePortConfig : Type 0 where
  pub published : Text
  pub target : ℕ
  pub host_ip : Text
  pub protocol : Text

-- The text is among the keys of the map `exist`.
unfoldable pub is_among : Text → List Text → Bool
is_among key seen = any (λ k. k == key) seen

-- An entry of `expose`, as its port and its protocol; TCP where it names none.
unfoldable pub parse_expose : Text → Text × Text
parse_expose port =
    if contains b'/' port
    then elim (split port b'/') [
      | [] ↦ ([], [])
      | value ∷ more ↦ elim more [ [] ↦ (value, []) | protocol ∷ _ ↦ (value, protocol) ]
    ]
    else (port, codes "TCP")

module _ (cast : Cast) where
  unfoldable pub load_port : ServicePortConfig → Ports
  load_port p = record {
    host_port = cast.to_int32 p.published;
    container_port = to_int32 (pos p.target);
    host_ip = p.host_ip;
    protocol = upper p.protocol;
  }

  unfoldable pub load_expose_port : Text × Text → Ports
  load_expose_port e = record {
    host_port = pos 0;
    container_port = cast.to_int32 e.0;
    host_ip = [];
    protocol = upper e.1;
  }

  -- The key under which a port is recorded: the protocol as it is written.
  unfoldable pub exist_key : ServicePortConfig → Text
  exist_key p = cast.to_text p.target ++ p.protocol

  unfoldable pub load_exposed : List Text → List Text → List Ports
  unfolding parse_expose load_expose_port is_among
  load_exposed exist [] = []
  load_exposed exist (port ∷ ports) =
      let e = parse_expose port in
      let rest = load_exposed exist ports in
      if is_among (e.0 ++ e.1) exist then rest else load_expose_port e ∷ rest

  unfoldable pub load_published : List ServicePortConfig → List Ports
  unfolding load_port
  load_published [] = []
  load_published (p ∷ ports) = load_port p ∷ load_published ports

  unfoldable pub exist_keys : List ServicePortConfig → List Text
  unfolding exist_key
  exist_keys [] = []
  exist_keys (p ∷ ports) = exist_key p ∷ exist_keys ports

  unfoldable pub load_ports : List ServicePortConfig → List Text → List Ports
  unfolding load_published exist_keys load_exposed
  load_ports ports expose = load_published ports ++ load_exposed (exist_keys ports) expose

-- ===== src/Kubernetes/Ports/Container.antt =====
-- ConfigPorts keeps the first port of each id.
use kompose.Base.{
  Bool, true, false, ◌≡◌, ◌≢◌, ◌↔◌, ◌⊎◌, inl, inr, refl, List, [], ◌∷◌, ◌++◌, map, arith, Text,
  ◌==◌, ==_iff, Bool-cases, All, In, AllDistinct,
}
use kompose.Base.Decimal.{itoa}
use kompose.Kobject.{Ports, ServiceConfig, port_id}
use kompose.Kubernetes.Ports.{
  ContainerPort, has_key, container_port_of, config_ports_from, config_ports,
}

-- The id of a container port: its number and its protocol.
pub container_port_id : ContainerPort → Text
container_port_id c = itoa c.container_port ++ c.protocol

abbrev pub ids : List ContainerPort → List Text
ids = map container_port_id

id_of : (exposed : Bool) (p : Ports) → container_port_id (container_port_of exposed p) ≡ port_id p
unfolding container_port_id container_port_of port_id
id_of exposed p = refl

has_key-cons :
    (k j : Text) (seen : List Text)
    → has_key k (j ∷ seen) ≡ false
    → (j ≢ k) × (has_key k seen ≡ false)
unfolding has_key
has_key-cons k j seen h = ground (arith, ==_iff j k)

has_key-false :
    (k j : Text) (seen : List Text)
    → has_key k seen ≡ true
    → (j == k) ≡ false
    → has_key k (j ∷ seen) ≡ true
unfolding has_key
has_key-false k j seen h e = ground arith

fresh-drop :
    (j : Text) (seen ks : List Text)
    → All (λ k. has_key k (j ∷ seen) ≡ false) ks
    → All (λ k. j ≢ k) ks × All (λ k. has_key k seen ≡ false) ks
fresh-drop j seen [] h = (tt, tt)
fresh-drop j seen (k ∷ ks) (hk, h) =
    let (ne, e) = has_key-cons k j seen hk in
    let (nes, es) = fresh-drop j seen ks h in ((ne, nes), (e, es))

-- What is kept is new and distinct.
kept_new :
    (x : Bool) (ports : List Ports) (exist : List Text)
    → All (λ k. has_key k exist ≡ false) (ids (config_ports_from x ports exist))
      × AllDistinct (ids (config_ports_from x ports exist))
unfolding config_ports_from
kept_new x [] exist = (tt, tt)
kept_new x (p ∷ ports) exist = elim (Bool-cases (has_key (port_id p) exist)) [
  | inl e ↦ rw e (kept_new x ports exist)
  | inr e ↦
      let (new, apart) = kept_new x ports (port_id p ∷ exist) in
      let (ne, fresh) = fresh-drop (port_id p) exist _ new in
      rw (e, id_of x p) ((e, fresh), (ne, apart))
]

seen_or_new :
    (k j : Text) (seen : List Text)
    → has_key k (j ∷ seen) ≡ true
    → (k ≡ j) ⊎ (has_key k seen ≡ true)
unfolding has_key
seen_or_new k j seen h = ground (arith, ==_iff j k)

-- An id of the ports is seen or kept.
kept_all :
    (x : Bool) (ports : List Ports) (exist : List Text) (k : Text)
    → In k (map port_id ports)
    → (has_key k exist ≡ true) ⊎ In k (ids (config_ports_from x ports exist))
unfolding config_ports_from
kept_all x [] exist k h = elim h [ ]
kept_all x (p ∷ ports) exist k (inl i) = elim (Bool-cases (has_key (port_id p) exist)) [
  | inl e ↦ inl (rw i e)
  | inr e ↦ rw (e, id_of x p) (inr (inl i))
]
kept_all x (p ∷ ports) exist k (inr h) = elim (Bool-cases (has_key (port_id p) exist)) [
  | inl e ↦ rw e (kept_all x ports exist k h)
  | inr e ↦
      rw (e, id_of x p)
        (elim (kept_all x ports (port_id p ∷ exist) k h) [
          | inl seen ↦ (elim (seen_or_new k (port_id p) exist seen) [
            | inl i ↦ inr (inl i)
            | inr s ↦ inl s
          ])
          | inr m ↦ inr (inr m)
        ])
]

kept_only :
    (x : Bool) (ports : List Ports) (exist : List Text) (k : Text)
    → In k (ids (config_ports_from x ports exist))
    → In k (map port_id ports)
unfolding config_ports_from
kept_only x [] exist k h = h
kept_only x (p ∷ ports) exist k h = elim (Bool-cases (has_key (port_id p) exist)) [
  | inl e ↦ inr (kept_only x ports exist k (rw e at h))
  | inr e ↦
      let m : (k ≡ port_id p) ⊎ In k (ids (config_ports_from x ports (port_id p ∷ exist))) =
        rw (e, id_of x p) at h in
      elim m [ inl i ↦ inl i | inr n ↦ inr (kept_only x ports (port_id p ∷ exist) k n) ]
]

-- No id (number and protocol) occurs twice among the container ports.
pub config_ports-AllDistinct : (s : ServiceConfig) → AllDistinct (ids (config_ports s))
unfolding config_ports
config_ports-AllDistinct s = (kept_new s.expose_container_to_host s.port []).1

none_seen : (k : Text) → has_key k [] ≢ true
unfolding has_key
none_seen k h = cc

-- The container ports have exactly the ids of the service's ports.
pub config_ports-ids :
    (s : ServiceConfig) (k : Text) → In k (ids (config_ports s)) ↔ In k (map port_id s.port)
unfolding config_ports
config_ports-ids s k = (
  kept_only s.expose_container_to_host s.port [] k,
  λ h. elim (kept_all s.expose_container_to_host s.port [] k h) [
    | inl e ↦ absurd (none_seen k e)
    | inr m ↦ m
  ],
)

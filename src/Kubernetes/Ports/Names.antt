-- ===== src/Kubernetes/Ports/Names.antt =====
-- The names of a service's ports, and the split of a load balancer's ports by protocol.
use kompose.Base.{
  ℕ, Bool, true, false, ◌≡◌, ◌≢◌, inl, inr, sym, ap, subst, ◌∙◌, List, [], ◌∷◌, ◌++◌, map, arith,
  Text, codes, ◌==◌, Bool-cases, All, AllDistinct, Lacks, lower, filter, not, append_assoc,
  append-nil, split-append, split-Lacks, split, split-cons, join, join-split, ◌&&◌, if◌then◌else◌,
}
use kompose.Base.Int.{ℤ, pos, eqb_ℤ_iff}
use kompose.Base.Decimal.{itoa, itoa_ℕ, itoa_ℕ-injective, itoa_ℕ-IsDigit, IsDigit}
use kompose.Base.Outcome.{ok, >>=-eq-ok}
use kompose.Kobject.{Ports, ServiceConfig}
use kompose.Kubernetes.Ports.{
  ServicePort, host_port_of, has_port, service_port_name, service_port_of,
  config_service_ports_from, config_service_ports, is_tcp, lb_service_port, config_lb_from,
  config_lb_service_ports,
}

lb_from :
    (ports : List Ports) (tcp udp : List ServicePort)
    → config_lb_from ports tcp udp ≡ (
      tcp ++ map lb_service_port (filter is_tcp ports),
      udp ++ map lb_service_port (filter (λ p. not (is_tcp p)) ports),
    )
unfolding config_lb_from
lb_from [] tcp udp = rw (append-nil, append-nil)
lb_from (p ∷ ports) tcp udp = ground (
  arith,
  lb_from ports (tcp ++ lb_service_port p ∷ []) udp,
  lb_from ports tcp (udp ++ lb_service_port p ∷ []),
  append_assoc tcp (lb_service_port p ∷ []) (map lb_service_port (filter is_tcp ports)),
  append_assoc udp (lb_service_port p ∷ [])
      (map lb_service_port (filter (λ q. not (is_tcp q)) ports)),
)

-- The load balancer's TCP service has the TCP ports and the other service the other ports, each in
-- the order of the service, and none is lost.
pub config_lb_service_ports-filter :
    (s : ServiceConfig)
    → config_lb_service_ports s ≡ (
      map lb_service_port (filter is_tcp s.port),
      map lb_service_port (filter (λ p. not (is_tcp p)) s.port),
    )
unfolding config_lb_service_ports
config_lb_service_ports-filter s = lb_from s.port [] []

-- The number and the protocol of a service port, in lower case as the name has it.
abbrev pub target : Ports → ℤ × Text
target p = (host_port_of p, lower p.protocol)

-- The host port is a number that is not negative.
abbrev pub IsNatural : Ports → Type 0
IsNatural p = (n : ℕ) × (host_port_of p ≡ pos n)

digits_no_dash : (s : Text) → All IsDigit s → Lacks b'-' s
digits_no_dash [] h = tt
digits_no_dash (c ∷ s) (hc, hs) = (omega arith, digits_no_dash s hs)

plain_or_dashed :
    (n : ℕ) (p : Text) (b : Bool)
    → split (if b then itoa_ℕ n ++ b'-' ∷ p else itoa_ℕ n) b'-'
      ≡ itoa_ℕ n ∷ (if b then split p b'-' else [])
plain_or_dashed n p true = split-append (itoa_ℕ n) p b'-' (digits_no_dash _ (itoa_ℕ-IsDigit n))
plain_or_dashed n p false = split-Lacks (itoa_ℕ n) b'-' (digits_no_dash _ (itoa_ℕ-IsDigit n))

tails-eq : (a b : Text) → split a b'-' ≡ split b b'-' → a ≡ b
tails-eq a b e = sym (join-split a b'-') ∙ ap (λ ps. join ps b'-') e ∙ join-split b b'-'

module _ {A : Type 0} where
  heads : {a b : A} {u v : List A} → a ∷ u ≡ b ∷ v → a ≡ b
  heads e = ground arith

  tails : {a b : A} {u v : List A} → a ∷ u ≡ b ∷ v → u ≡ v
  tails e = ground arith

-- A name that `q` gets after `p`, whose number it has seen, is not the name of `p`.
dashed-apart :
    (n m : ℕ) (p q : Text) (b d : Bool)
    → (n ≡ m → d ≡ true)
    → (n ≡ m → p ≢ q)
    → (if b then itoa_ℕ n ++ b'-' ∷ p else itoa_ℕ n)
      ≢ (if d then itoa_ℕ m ++ b'-' ∷ q else itoa_ℕ m)
dashed-apart n m p q b d seen apart e =
    let parts = sym (plain_or_dashed n p b) ∙ ap (λ s. split s b'-') e ∙ plain_or_dashed m q d in
    let same = itoa_ℕ-injective n m (heads parts) in
    let dashed = seen same in
    let rest : (if b then split p b'-' else []) ≡ split q b'-' = rw dashed at (tails parts) in
    elim (Bool-cases b) [
      | inl f ↦ apart same (tails-eq p q (rw f at rest))
      | inr f ↦
          let (h, t, c) = split-cons q b'-' in
          let none_left : [] ≡ split q b'-' = rw f at rest in cc (none_left, c)
    ]

name-eq :
    (p : Ports) (seen : List ℤ) (n : ℕ)
    → host_port_of p ≡ pos n
    → service_port_name p seen
      ≡ (if has_port (pos n) seen then itoa_ℕ n ++ b'-' ∷ lower p.protocol else itoa_ℕ n)
unfolding service_port_name itoa
name-eq p seen n e = rw e

name-apart :
    (p q : Ports) (sp sq : List ℤ)
    → IsNatural p
    → IsNatural q
    → has_port (host_port_of p) sq ≡ true
    → target p ≢ target q
    → service_port_name p sp ≢ service_port_name q sq
name-apart p q sp sq (n, en) (m, em) seen apart e =
    dashed-apart n m (lower p.protocol) (lower q.protocol) (has_port (pos n) sp)
      (has_port (pos m) sq)
      (λ i. subst (λ k. has_port (pos k) sq ≡ true) i (subst (λ k. has_port k sq ≡ true) en seen))
      (λ i j. apart (cc (en, em, i, j))) (sym (name-eq p sp n en) ∙ e ∙ name-eq q sq m em)

-- The names that the loop gives.
names : List Ports → List ℤ → List Text
names [] seen = []
names (p ∷ ports) seen = service_port_name p seen ∷ names ports (host_port_of p ∷ seen)

has_port-cons : (k j : ℤ) (seen : List ℤ) → has_port k seen ≡ true → has_port k (j ∷ seen) ≡ true
unfolding has_port
has_port-cons k j seen h = ground arith

has_port_self : (k : ℤ) (seen : List ℤ) → has_port k (k ∷ seen) ≡ true
unfolding has_port
has_port_self k seen = ground (arith, eqb_ℤ_iff k k)

later-apart :
    (p : Ports) (sp seen : List ℤ) (ports : List Ports)
    → IsNatural p
    → All IsNatural ports
    → has_port (host_port_of p) seen ≡ true
    → All (λ t. target p ≢ t) (map target ports)
    → All (λ y. service_port_name p sp ≢ y) (names ports seen)
unfolding names
later-apart p sp seen [] np _ _ _ = tt
later-apart p sp seen (q ∷ ports) np (nq, ns) h (ne, nes) = (
  name-apart p q sp seen np nq h ne,
  later-apart p sp (host_port_of q ∷ seen) ports np ns
      (has_port-cons (host_port_of p) (host_port_of q) seen h) nes,
)

names-AllDistinct :
    (ports : List Ports) (seen : List ℤ)
    → All IsNatural ports
    → AllDistinct (map target ports)
    → AllDistinct (names ports seen)
unfolding names
names-AllDistinct [] seen _ _ = tt
names-AllDistinct (p ∷ ports) seen (np, ns) (ne, d) = (
  later-apart p seen (host_port_of p ∷ seen) ports np ns (has_port_self (host_port_of p) seen) ne,
  names-AllDistinct ports (host_port_of p ∷ seen) ns d,
)

abbrev pub port_name : ServicePort → Text
port_name p = p.name

from-names :
    (s : ServiceConfig) (ports : List Ports) (seen : List ℤ) (r : List ServicePort)
    → config_service_ports_from s ports seen ≡ ok r
    → map port_name r ≡ names ports seen
unfolding config_service_ports_from names service_port_of
from-names s [] seen r h = ground arith
from-names s (p ∷ ports) seen r h =
    elim (Bool-cases (has_port (host_port_of p) seen && s.service_type == codes "LoadBalancer")) [
      | inl e ↦ absurd (ground (arith, e))
      | inr e ↦
          let (q, er, f) =
            >>=-eq-ok (config_service_ports_from s ports (host_port_of p ∷ seen))
              (λ r'. ok (service_port_of s p seen ∷ r')) (rw e at h) in
          ground (arith, f, from-names s ports (host_port_of p ∷ seen) q er)
    ]

-- The ports of a service have distinct names, if the host ports are not negative and no two ports
-- agree in both the host port and the protocol up to case.
pub config_service_ports-AllDistinct :
    (s : ServiceConfig) (r : List ServicePort)
    → config_service_ports s ≡ ok r
    → All IsNatural s.port
    → AllDistinct (map target s.port)
    → AllDistinct (map port_name r)
unfolding config_service_ports
config_service_ports-AllDistinct s r h n d =
    rw (from-names s s.port [] r h) (names-AllDistinct s.port [] n d)

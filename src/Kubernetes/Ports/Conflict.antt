-- ===== src/Kubernetes/Ports/Conflict.antt =====
-- What the ports check of a group finds.
use kompose.Base.{
  ℕ, ◌≤◌, ◌<◌, false, ◌≡◌, ◌≢◌, inl, inr, refl, sym, none, some, List, [], ◌∷◌, ◌++◌, map, arith,
  Text, ==_iff, Bool-cases, Option-cases, ◌∙◌, All, AllDistinct, ap₂, subst, append-nil, map-append,
}
use kompose.Base.Int.{ℤ, pos}
use kompose.Kobject.{Ports, ServiceConfig}
use kompose.Kubernetes.Ports.{
  ContainerPort, has_key, config_ports, rune_text, port_use_key, use_ports, use_group_ports,
}

-- A number that string() turns into its own bytes: 0 to 55295.
abbrev pub IsPlainPort : ContainerPort → Type 0
IsPlainPort p = (n : ℕ) × (p.container_port ≡ pos n) × (n < 0xD800)

-- What a port is told apart by: its number and its protocol.
abbrev pub endpoint : ContainerPort → ℤ × Text
endpoint p = (p.container_port, p.protocol)

abbrev pub AllPlain : List ContainerPort → Type 0
AllPlain = All IsPlainPort

-- None of the keys is used.
abbrev Unused : List Text → List Text → Type 0
Unused uses = All (λ k. has_key k uses ≡ false)

Unused-tail :
    (j : Text) (uses ks : List Text) → Unused (j ∷ uses) ks → All (λ k. j ≢ k) ks × Unused uses ks
unfolding has_key
Unused-tail j uses [] _ = (tt, tt)
Unused-tail j uses (k ∷ ks) (hk, h) =
    let (nes, es) = Unused-tail j uses ks h in
    let ne : j ≢ k = ground (arith, ==_iff j k) in
    let e : has_key k uses ≡ false = unfold has_key in ground (arith, ==_iff j k) in
    ((ne, nes), (e, es))

use_ports-used :
    (uses u : List Text) (ps : List ContainerPort)
    → use_ports uses ps ≡ some u
    → Unused uses (map port_use_key ps) × AllDistinct (map port_use_key ps)
unfolding use_ports
use_ports-used uses u [] _ = (tt, tt)
use_ports-used uses u (p ∷ ps) h = elim (Bool-cases (has_key (port_use_key p) uses)) [
  | inl e ↦ absurd (ground (arith, e))
  | inr e ↦
      let (un, d) = use_ports-used (port_use_key p ∷ uses) u ps (ground (arith, e)) in
      let (ne, h') = Unused-tail (port_use_key p) uses _ un in ((e, h'), (ne, d))
]

-- The container ports of a group, service after service.
abbrev pub group_ports : List ServiceConfig → List ContainerPort
group_ports [] = []
group_ports (s ∷ group) = config_ports s ++ group_ports group

use_ports-append :
    (uses : List Text) (ps qs : List ContainerPort)
    → use_ports uses (ps ++ qs)
      ≡ (elim (use_ports uses ps) [ none ↦ none | some u ↦ use_ports u qs ])
unfolding use_ports
use_ports-append uses [] qs = refl
use_ports-append uses (p ∷ ps) qs = ground (arith, use_ports-append (port_use_key p ∷ uses) ps qs)

use_group_ports-flat :
    (uses : List Text) (group : List ServiceConfig)
    → use_group_ports uses group ≡ use_ports uses (group_ports group)
unfolding use_group_ports use_ports
use_group_ports-flat uses [] = refl
use_group_ports-flat uses (s ∷ group) = elim (Option-cases (use_ports uses (config_ports s))) [
  | inl e ↦ ground (arith, e, use_ports-append uses (config_ports s) (group_ports group))
  | inr (u, e) ↦ ground (
    arith,
    e,
    use_ports-append uses (config_ports s) (group_ports group),
    use_group_ports-flat u group,
  )
]

-- A number that string() turns into U+FFFD: 55296 to 57343.
pub record IsSurrogatePort (s : ServiceConfig) (protocol : Text) : Type 0 where
  pub port : Ports
  pub number : ℕ
  pub single : s.port ≡ port ∷ []
  pub numbered : port.container_port ≡ pos number
  pub over : 0xD800 ≤ number
  pub under : number < 0xE000
  pub with_protocol : port.protocol ≡ protocol

surrogate_rune : (n : ℕ) → 0xD800 ≤ n → n < 0xE000 → rune_text (pos n) ≡ 0xEF ∷ 0xBF ∷ 0xBD ∷ []
unfolding rune_text
surrogate_rune n h k = ground arith

single_port :
    (s : ServiceConfig) (p : Ports)
    → s.port ≡ p ∷ []
    → map port_use_key (config_ports s) ≡ (rune_text p.container_port ++ p.protocol) ∷ []
unfolding config_ports port_use_key has_key
single_port s p h = rw h

surrogate_ports :
    (s : ServiceConfig) (protocol : Text)
    → IsSurrogatePort s protocol
    → map port_use_key (config_ports s) ≡ ((0xEF ∷ 0xBF ∷ 0xBD ∷ []) ++ protocol) ∷ []
surrogate_ports s protocol h = rw (
  single_port s h.port h.single,
  h.numbered,
  surrogate_rune h.number h.over h.under,
  h.with_protocol,
)

map-group :
    (s t : ServiceConfig)
    → map port_use_key (group_ports (s ∷ t ∷ []))
      ≡ map port_use_key (config_ports s) ++ map port_use_key (config_ports t)
map-group s t = rw (map-append, append-nil)

-- Two services of a group with one port each are refused as soon as both numbers lie between 55296
-- and 57343 and the protocols agree, however different the numbers are.
pub use_group_ports-surrogate :
    (s t : ServiceConfig) (protocol : Text)
    → IsSurrogatePort s protocol
    → IsSurrogatePort t protocol
    → use_group_ports [] (s ∷ t ∷ []) ≡ none
use_group_ports-surrogate s t protocol h k = elim (Option-cases (use_group_ports [] (s ∷ t ∷ []))) [
  | inl e ↦ e
  | inr (u, e) ↦
      let d =
        (use_ports-used [] u (group_ports (s ∷ t ∷ []))
          (sym (use_group_ports-flat [] (s ∷ t ∷ [])) ∙ e)).1 in
      let keys =
        map-group s t
        ∙ ap₂ (λ a b. a ++ b) (surrogate_ports s protocol h) (surrogate_ports t protocol k) in
      let twice = subst AllDistinct keys d in absurd (twice.0.0 refl)
]

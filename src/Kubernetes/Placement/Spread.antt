-- ===== src/Kubernetes/Placement/Spread.antt =====
-- The constraints of a pod, one for each preference or requirement.
use Prim.Native.Nat.{zero, suc}
use kompose.Base.{
  ℕ, ◌+◌, ◌^◌, ◌<◌, ◌≡◌, ◌≢◌, refl, List, [], ◌∷◌, map, Text, codes, ==_iff, length, arith,
}
use kompose.Base.Int.{ℤ, pos, to_int32}
use kompose.Kobject.{ServiceConfig}
use kompose.Kubernetes.Types.{TopologySpreadConstraint}
use kompose.Kubernetes.Placement.{spread_from, config_topology_spread_constraints}

-- n, n - 1, ..., 1
pub countdown : ℕ → List ℤ
countdown zero = []
countdown (suc n) = pos (suc n) ∷ countdown n

abbrev pub skew : TopologySpreadConstraint → ℤ
skew c = c.max_skew

abbrev pub topology : TopologySpreadConstraint → Text
topology c = c.topology_key

from-skews :
    (name : Text) (count i : ℕ) (preferences : List Text)
    → count < 2 ^ 31
    → length preferences + i ≡ count
    → (map skew (spread_from name count i preferences) ≡ countdown (length preferences))
      × (map topology (spread_from name count i preferences) ≡ preferences)
unfolding spread_from countdown to_int32
from-skews name count i [] h e = (refl, refl)
from-skews name count i (p ∷ preferences) h e =
    let r = from-skews name count (i + 1) preferences h (omega arith) in
    (ground (arith, r.0), ground (arith, r.1))

-- Unless a service is global, each preference makes one constraint, in order, and with fewer than 2^31
-- preferences the skews fall by one from their number to 1.
pub config_topology_spread_constraints-countdown :
    (s : ServiceConfig)
    → s.deploy_mode ≢ codes "global"
    → length s.placement.preferences < 2 ^ 31
    → (map skew (config_topology_spread_constraints s) ≡ countdown (length s.placement.preferences))
      × (map topology (config_topology_spread_constraints s) ≡ s.placement.preferences)
unfolding config_topology_spread_constraints
config_topology_spread_constraints-countdown s h k =
    let r =
      from-skews s.name (length s.placement.preferences) 0 s.placement.preferences k
        (omega arith) in
    ground (arith, r.0, r.1, ==_iff s.deploy_mode (codes "global"))

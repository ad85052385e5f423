-- ===== src/Kubernetes/Placement.antt =====
-- The affinity and the spread of a pod from the placement of its service
-- (pkg/transformer/kubernetes/kubernetes.go).
pub mod Spread
mod Tests
use kompose.Base.{
  ℕ, ◌+◌, ◌-◌, Bool, true, false, ◌||◌, not, Option, none, some, List, [], ◌∷◌, ◌++◌, map, Text,
  codes, ◌==◌, length, ltb, if◌then◌else◌,
}
use kompose.Base.Int.{ℤ, pos, to_int32}
use kompose.Base.Dict.{Dict}
use kompose.Kobject.{ServiceConfig}
use kompose.Kubernetes.Types.{NodeSelectorRequirement, TopologySpreadConstraint}
use kompose.Transformer.Labels.{config_labels}

-- In the order in which the map is visited.
unfoldable pub config_constrains : Dict Text → Text → List NodeSelectorRequirement
config_constrains constrains operator =
    map (λ e. record { key = e.0; operator = operator; values = e.1 ∷ [] }) constrains

unfoldable pub config_affinity : ServiceConfig → Option (List NodeSelectorRequirement)
unfolding config_constrains
config_affinity s =
    let positive = config_constrains s.placement.positive_constraints (codes "In") in
    let negative = config_constrains s.placement.negative_constraints (codes "NotIn") in
    if ltb 0 (length positive) || ltb 0 (length negative) then some (positive ++ negative) else none

-- The loop from the index `i` on.
unfoldable pub spread_from : Text → ℕ → ℕ → List Text → List TopologySpreadConstraint
unfolding config_labels
spread_from name count i [] = []
spread_from name count i (p ∷ preferences) =
    record {
      max_skew = to_int32 (pos (count - i));
      topology_key = p;
      when_unsatisfiable = codes "ScheduleAnyway";
      match_labels = config_labels name;
    }
    ∷ spread_from name count (i + 1) preferences

unfoldable pub config_topology_spread_constraints : ServiceConfig → List TopologySpreadConstraint
unfolding spread_from
config_topology_spread_constraints s =
    if s.deploy_mode == codes "global"
    then []
    else spread_from s.name (length s.placement.preferences) 0 s.placement.preferences

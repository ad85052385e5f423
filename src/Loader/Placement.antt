-- ===== src/Loader/Placement.antt =====
-- loadPlacement of pkg/loader/compose/compose.go.
pub mod Constraints
mod Tests
use Prim.Native.Nat.{zero, suc}
use kompose.Base.{
  ℕ, ◌-◌, Bool, true, false, Option, none, some, List, [], ◌∷◌, ◌++◌, Text, codes, ◌==◌, has_prefix,
  trim_prefix, length, get_elem?, ltb, if◌then◌else◌,
}
use kompose.Base.Substrings.{contains_text, split_at}
use kompose.Base.Dict.{Dict, insert}
use kompose.Kobject.{Placement}

unfoldable pub convert_docker_label : Text → Option Text
unfolding trim_prefix
convert_docker_label docker_label =
    if docker_label == codes "node.hostname"
    then some (codes "kubernetes.io/hostname")
    else if docker_label == codes "engine.labels.operatingsystem"
    then some (codes "kubernetes.io/os")
    else if has_prefix docker_label (codes "node.labels.")
    then some (trim_prefix docker_label (codes "node.labels."))
    else none

abbrev pub equal : Text
equal = codes " == "

abbrev pub not_equal : Text
not_equal = codes " != "

-- One constraint: the converted label, its value, and whether it must not hold.
unfoldable pub parse_constraint : Text → Option (Text × Text × Bool)
unfolding split_at contains_text convert_docker_label
parse_constraint j =
    let negative = contains_text j not_equal in
    elim (split_at (if negative then not_equal else equal) 0 j) [
      | [] ↦ none
      | label ∷ others ↦ elim others [
        | [] ↦ none
        | value ∷ _ ↦ elim (convert_docker_label label) [
          | none ↦ none
          | some key ↦ some (key, value, negative)
        ]
      ]
    ]

-- The loop over the constraints.
unfoldable pub load_constraints : List Text → Dict Text → Dict Text → Dict Text × Dict Text
unfolding parse_constraint insert
load_constraints [] positive negative = (positive, negative)
load_constraints (j ∷ constraints) positive negative = elim (parse_constraint j) [
  | none ↦ load_constraints constraints positive negative
  | some (key, value, b) ↦ elim b [
    | true ↦ load_constraints constraints positive (insert key value negative)
    | false ↦ load_constraints constraints (insert key value positive) negative
  ]
]

-- The loop over the preferences, given by what they spread over.
unfoldable pub load_preferences : List Text → List Text
unfolding convert_docker_label
load_preferences [] = []
load_preferences (spread ∷ preferences) =
    let rest = load_preferences preferences in
    elim (convert_docker_label spread) [ none ↦ rest | some label ↦ label ∷ rest ]

unfoldable pub load_placement : List Text → List Text → Placement
unfolding load_constraints load_preferences
load_placement constraints preferences =
    let loaded = load_constraints constraints [] [] in
    record {
      positive_constraints = loaded.0;
      negative_constraints = loaded.1;
      preferences = load_preferences preferences;
    }

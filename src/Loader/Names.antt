-- ===== src/Loader/Names.antt =====
-- pkg/loader/compose/utils.go: names, service types and environment entries.
pub mod Laws
mod Tests
use kompose.Base.{
  ℕ, suc, Bool, true, false, ◌&&◌, ◌||◌, not, Option, none, some, List, [], ◌∷◌, ◌++◌, map, Text,
  codes, ◌==◌, lower, replace, filter, contains, split, nat_eq, leb, ltb, if◌then◌else◌,
}
use kompose.Base.Dict.{Dict, lookup}
use kompose.Kobject.{EnvVar}

abbrev pub label_name_override : Text
label_name_override = codes "kompose.service.name_override"

-- `none` is an error, here and below.
unfoldable pub handle_service_type : Text → Option Text
handle_service_type s =
    let t = lower s in
    if t == [] || t == codes "clusterip"
    then some (codes "ClusterIP")
    else if t == codes "nodeport"
    then some (codes "NodePort")
    else if t == codes "loadbalancer"
    then some (codes "LoadBalancer")
    else if t == codes "headless"
    then some (codes "Headless")
    else none

unfoldable pub handle_service_external_traffic_policy : Text → Option Text
handle_service_external_traffic_policy s =
    let t = lower s in
    if t == [] || t == codes "cluster"
    then some (codes "Cluster")
    else if t == codes "local"
    then some (codes "Local")
    else none

unfoldable pub normalize_container_names : Text → Text
unfolding lower
normalize_container_names s = lower s

-- the class [._] of the regular expression
abbrev pub is_separator : ℕ → Bool
is_separator c = nat_eq c b'.' || nat_eq c b'_'

unfoldable pub normalize_service_names : Text → Text
unfolding lower
normalize_service_names s = lower (map (λ c. if is_separator c then b'-' else c) s)

unfoldable pub normalize_volumes : Text → Text
unfolding replace
normalize_volumes s = replace b'_' b'-' s

-- the class [A-Za-z0-9.-], whose complement is deleted
abbrev pub is_network_char : ℕ → Bool
is_network_char c =
    leb b'A' c && leb c b'Z'
    || leb b'a' c && leb c b'z'
    || leb b'0' c && leb c b'9'
    || nat_eq c b'.'
    || nat_eq c b'-'

-- The expression is constant and compiles, so there is no error.
unfoldable pub normalize_network_names : Text → Text
unfolding lower replace
normalize_network_names s = filter is_network_char (lower (replace b'_' b'-' s))

unfoldable pub parse_resource_name : Text → Dict Text → Text
unfolding lookup normalize_container_names
parse_resource_name name labels = elim (lookup label_name_override labels) [
  | none ↦ normalize_container_names name
  | some value ↦ normalize_container_names value
]

-- The text before the first byte `c`, and the text behind it, as strings.SplitN(e, c, 2) gives them.
unfoldable pub cut : ℕ → Text → Option (Text × Text)
cut c [] = none
cut c (x ∷ s) =
    if nat_eq x c
    then some ([], s)
    else elim (cut c s) [ none ↦ none | some (before, behind) ↦ some (x ∷ before, behind) ]

-- strings.Index(e, string(c)); `none` is -1
unfoldable pub index : ℕ → Text → Option ℕ
index c [] = none
index c (x ∷ s) =
    if nat_eq x c then some 0 else elim (index c s) [ none ↦ none | some i ↦ some (suc i) ]

-- The four cases of equalPos and colonPos.
abbrev pub earlier : Option ℕ → Option ℕ → Option ℕ
earlier none none = none
earlier none (some colon) = some b':'
earlier (some equal) none = some b'='
earlier (some equal) (some colon) = if ltb colon equal then some b':' else some b'='

unfoldable pub separator_of : Text → Option ℕ
unfolding index
separator_of e = earlier (index b'=' e) (index b':' e)

-- os.Getenv is a parameter.
module _ (getenv : Text → Text) where
  unfoldable pub load_env_var : Text → EnvVar
  unfolding separator_of cut
  load_env_var e = elim (separator_of e) [
    | none ↦ record { name = e; value = getenv e }
    | some c ↦ elim (cut c e) [
      | none ↦ record { name = e; value = [] }
      | some (name, value) ↦ record {
        name = name;
        value = if value == [] then getenv name else value;
      }
    ]
  ]

  unfoldable pub load_env_vars : List Text → List EnvVar
  unfolding load_env_var
  load_env_vars envars = map load_env_var envars

-- ===== src/Transformer/Labels.antt =====
-- The labels of the objects and the paths of an ingress (pkg/transformer/utils.go).
pub mod Ingress
use kompose.Base.{
  ℕ, Bool, true, false, List, [], ◌∷◌, ◌++◌, Text, codes, contains, split, join, if◌then◌else◌,
}
use kompose.Base.Dict.{Dict, insert}
use kompose.Kobject.{ServiceConfig}

abbrev pub selector : Text
selector = codes "io.kompose.service"

unfoldable pub config_labels : Text → Dict Text
config_labels name = (selector, name) ∷ []

-- The loop over the networks.
unfoldable pub label_networks : List Text → Dict Text → Dict Text
unfolding insert
label_networks [] labels = labels
label_networks (n ∷ net) labels =
    label_networks net (insert (codes "io.kompose.network/" ++ n) (codes "true") labels)

unfoldable pub config_labels_with_network : Text → List Text → Dict Text
unfolding label_networks insert
config_labels_with_network name net = label_networks net (insert selector name [])

-- The loop over the deploy labels.
unfoldable pub label_deploy : Dict Text → Dict Text → Dict Text
unfolding insert
label_deploy [] labels = labels
label_deploy ((key, value) ∷ more) labels = label_deploy more (insert key value labels)

unfoldable pub config_all_labels : Text → ServiceConfig → Dict Text
unfolding label_deploy config_labels
config_all_labels name s = label_deploy s.deploy_labels (config_labels name)

unfoldable pub parse_ingress_path : Text → Text × Text
unfolding split
parse_ingress_path url =
    if contains b'/' url
    then elim (split url b'/') [ [] ↦ ([], []) | host ∷ parts ↦ (host, b'/' ∷ join parts b'/') ]
    else (url, [])

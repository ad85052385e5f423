-- ===== src/Transformer/Labels/Ingress.antt =====
-- Where the path of an ingress begins, and the label of the service.
use kompose.Base.{
  ◌≡◌, ◌≢◌, refl, ◌∙◌, some, List, [], ◌∷◌, ◌++◌, Text, codes, ==_iff, Lacks, Lacks-contains,
  contains-middle, split-append, join-split, arith,
}
use kompose.Base.Dict.{Dict, lookup, insert, lookup-insert}
use kompose.Transformer.Labels.{
  selector, config_labels_with_network, label_networks, parse_ingress_path,
}

-- The host is what stands before the first slash, and the path the rest from that slash on.
pub parse_ingress_path_lem :
    (host path : Text)
    → Lacks b'/' host
    → (parse_ingress_path host ≡ (host, []))
      × (parse_ingress_path (host ++ b'/' ∷ path) ≡ (host, b'/' ∷ path))
unfolding parse_ingress_path
parse_ingress_path_lem host path h = (
  ground (arith, Lacks-contains b'/' host h),
  rw (contains-middle b'/' host path, split-append host path b'/' h, join-split path b'/') refl,
)

selector-apart : (n : Text) → codes "io.kompose.network/" ++ n ≢ selector
selector-apart n = ground arith

networks-selector :
    (net : List Text) (labels : Dict Text)
    → lookup selector (label_networks net labels) ≡ lookup selector labels
unfolding label_networks
networks-selector [] labels = refl
networks-selector (n ∷ net) labels =
    let i = lookup-insert (codes "io.kompose.network/" ++ n) selector (codes "true") labels in
    let j = ==_iff (codes "io.kompose.network/" ++ n) selector in
    networks-selector net (insert (codes "io.kompose.network/" ++ n) (codes "true") labels)
    ∙ ground (arith, i, j, selector-apart n)

-- Whatever the networks, the selector label is the name of the service.
pub config_labels_with_network-selector :
    (name : Text) (net : List Text)
    → lookup selector (config_labels_with_network name net) ≡ some name
unfolding config_labels_with_network lookup insert
config_labels_with_network-selector name net =
    networks-selector net ((selector, name) ∷ []) ∙ ground (arith, ==_iff selector selector)

-- ===== src/Loader/Labels/Tests.antt =====
-- The labels of a service that is exposed on a node port.
use kompose.Base.{
  ◌≡◌, refl, some, [], ◌∷◌, arith, Text, codes, ◌==◌, lower, trim, false, AllDistinct,
}
use kompose.Base.Int.{pos}
use kompose.Base.Dict.{Dict}
use kompose.Base.Decimal.{itoa_ℕ}
use kompose.Base.Outcome.{ok, err}
use kompose.Kobject.{ServiceConfig}
use kompose.Kobject.Samples.{bare_service}
use kompose.Loader.Names.{handle_service_type}
use kompose.Loader.Labels.{
  Cast, parse_label, parse_label_loop, check_labels, parse_kompose_labels, label_service_type,
  label_service_expose, label_node_port_port, label_service_expose_tls_secret,
}
use kompose.Loader.Labels.Consistent.{IsConsistent, parse_kompose_labels-IsConsistent}
use kompose.Loader.Labels.Fields.{Follows, keys, parse_kompose_labels-Follows}

-- A reading of numbers that knows one number.
abbrev cast : Cast
cast = record {
  to_int32 = λ _. pos 30000;
  to_int64 = λ _. pos 30000;
  to_bool = λ _. false;
  to_int32_checked = λ _. some (pos 30000);
  to_text = itoa_ℕ;
}

abbrev node_port_labels : Dict Text
node_port_labels =
    (label_service_type, codes "nodeport")
    ∷ (label_node_port_port, codes "30000")
    ∷ (label_service_expose, codes " a.example ")
    ∷ []

abbrev node_port_service : ServiceConfig
node_port_service = record bare_service {
  service_type = codes "NodePort";
  node_port_port = pos 30000;
  expose_service = codes "a.example";
}

labels_read : parse_kompose_labels cast node_port_labels bare_service ≡ ok node_port_service
unfolding parse_kompose_labels parse_label_loop parse_label check_labels handle_service_type ◌==◌
    lower trim
labels_read = refl

tls_without_expose :
    parse_kompose_labels cast ((label_service_expose_tls_secret, codes "s") ∷ []) bare_service ≡ err
unfolding parse_kompose_labels parse_label_loop parse_label check_labels ◌==◌
tls_without_expose = refl

parse_kompose_labels-IsConsistent_example : IsConsistent node_port_service
parse_kompose_labels-IsConsistent_example =
    parse_kompose_labels-IsConsistent cast node_port_labels bare_service node_port_service
      labels_read

labels_distinct : AllDistinct (keys node_port_labels)
labels_distinct = ((ground arith, (ground arith, tt)), ((ground arith, tt), (tt, tt)))

parse_kompose_labels-Follows_example : Follows cast node_port_labels bare_service node_port_service
parse_kompose_labels-Follows_example =
    parse_kompose_labels-Follows cast node_port_labels bare_service node_port_service
      labels_distinct labels_read

-- ===== src/Loader/Labels/Fields.antt =====
-- Which label decides which field of the service.
use kompose.Base.{
  true, ◌≡◌, ◌≢◌, refl, subst, ◌∙◌, Option, none, some, List, [], ◌∷◌, arith, Text, ◌==◌, ==_iff,
  trim, All, AllDistinct, if◌then◌else◌,
}
use kompose.Base.Dict.{Dict, lookup}
use kompose.Base.Outcome.{ok, >>=-eq-ok}
use kompose.Kobject.{ServiceConfig}
use kompose.Loader.Names.{handle_service_type}
use kompose.Loader.Labels.{
  Cast, parse_label, parse_label_loop, check_labels, parse_kompose_labels, label_service_type,
  label_service_external_traffic_policy, label_security_context_fs_group,
  label_expose_container_to_host, label_service_expose, label_node_port_port, is_expose_space,
}

-- A field is what the handler makes of the label's value, and stays without the label.
abbrev pub from_label {ℓ} : {A : Type ℓ} → (Text → Option A) → Option Text → A → Option A
from_label handle none old = some old
from_label handle (some value) old = handle value

module _ (cast : Cast) (key value : Text) (s t : ServiceConfig) where
  step-service_type :
      parse_label cast key value s ≡ ok t
      → from_label handle_service_type
          (if key == label_service_type then some value else none)
          s.service_type
        ≡ some t.service_type
  unfolding parse_label
  step-service_type h = ground arith

  step-expose_service :
      parse_label cast key value s ≡ ok t
      → from_label
          (λ v. some (trim is_expose_space v))
          (if key == label_service_expose then some value else none)
          s.expose_service
        ≡ some t.expose_service
  unfolding parse_label
  step-expose_service h = ground (
    arith,
    ==_iff key label_service_expose,
    ==_iff key label_service_type,
    ==_iff key label_service_external_traffic_policy,
    ==_iff key label_security_context_fs_group,
    ==_iff key label_expose_container_to_host,
  )

  step-node_port_port :
      parse_label cast key value s ≡ ok t
      → from_label
          (λ v. some (cast.to_int32 v))
          (if key == label_node_port_port then some value else none)
          s.node_port_port
        ≡ some t.node_port_port
  unfolding parse_label
  step-node_port_port h = ground (
    arith,
    ==_iff key label_service_expose,
    ==_iff key label_service_type,
    ==_iff key label_service_external_traffic_policy,
    ==_iff key label_security_context_fs_group,
    ==_iff key label_expose_container_to_host,
    ==_iff key label_node_port_port,
  )

  step-untouched :
      parse_label cast key value s ≡ ok t
      → (t.port ≡ s.port)
        × (t.image ≡ s.image)
        × (t.restart ≡ s.restart)
        × (t.vol_list ≡ s.vol_list)
  unfolding parse_label
  step-untouched h = (ground arith, ground arith, ground arith, ground arith)

-- What the labels say of the service type, the exposed hosts and the node port is what the service
-- has; ports, image and volumes stay.
pub record Follows (cast : Cast) (labels : Dict Text) (s t : ServiceConfig) : Type 0 where
  pub service_type :
      from_label handle_service_type (lookup label_service_type labels) s.service_type
      ≡ some t.service_type
  pub expose_service :
      from_label
        (λ v. some (trim is_expose_space v))
        (lookup label_service_expose labels)
        s.expose_service
      ≡ some t.expose_service
  pub node_port_port :
      from_label (λ v. some (cast.to_int32 v)) (lookup label_node_port_port labels) s.node_port_port
      ≡ some t.node_port_port
  pub port : t.port ≡ s.port
  pub image : t.image ≡ s.image
  pub vol_list : t.vol_list ≡ s.vol_list

-- The keys of a map.
abbrev pub keys {ℓ} : {V : Type ℓ} → Dict V → List Text
keys [] = []
keys ((k, v) ∷ m) = k ∷ keys m

lookup-absent : (k : Text) (m : Dict Text) → All (λ j. k ≢ j) (keys m) → lookup k m ≡ none
unfolding lookup
lookup-absent k [] h = refl
lookup-absent k ((j, v) ∷ m) (ne, h) = ground (arith, ==_iff j k, lookup-absent k m h)

-- A field that the first label decides is left alone by the others, whose keys differ.
lookup-distinct :
    (label key value : Text) (m : Dict Text)
    → All (λ j. key ≢ j) (keys m)
    → (key == label) ≡ true
    → lookup label m ≡ none
lookup-distinct label key value m h e =
    lookup-absent label m (subst (λ k. All (λ j. k ≢ j) (keys m)) ((==_iff key label).0 e) h)

chain {ℓ} :
    {A : Type ℓ} (handle : Text → Option A) (label key value : Text) (m : Dict Text) (a b c : A)
    → All (λ j. key ≢ j) (keys m)
    → from_label handle (if key == label then some value else none) a ≡ some b
    → from_label handle (lookup label m) b ≡ some c
    → from_label handle (lookup label ((key, value) ∷ m)) a ≡ some c
unfolding lookup
chain handle label key value m a b c h first rest =
    ground (arith, lookup-distinct label key value m h)

loop-Follows :
    (cast : Cast) (labels : Dict Text) (s t : ServiceConfig)
    → AllDistinct (keys labels)
    → parse_label_loop cast labels s ≡ ok t
    → Follows cast labels s t
unfolding parse_label_loop
loop-Follows cast [] s t d h = unfold lookup in ground arith
loop-Follows cast ((key, value) ∷ labels) s t (hk, d) h =
    let (u, e, hu) = >>=-eq-ok (parse_label cast key value s) (parse_label_loop cast labels) h in
    let ih = loop-Follows cast labels u t d hu in
    let (po, im, _, vo) = step-untouched cast key value s u e in
    record {
      service_type =
          chain handle_service_type label_service_type key value labels _ _ _ hk
            (step-service_type cast key value s u e) ih.service_type;
      expose_service =
          chain (λ v. some (trim is_expose_space v)) label_service_expose key value labels _ _ _ hk
            (step-expose_service cast key value s u e) ih.expose_service;
      node_port_port =
          chain (λ v. some (cast.to_int32 v)) label_node_port_port key value labels _ _ _ hk
            (step-node_port_port cast key value s u e) ih.node_port_port;
      port = ih.port ∙ po;
      image = ih.image ∙ im;
      vol_list = ih.vol_list ∙ vo;
    }

check-Follows :
    (cast : Cast) (labels : Dict Text) (s u t : ServiceConfig)
    → Follows cast labels s u
    → check_labels u ≡ ok t
    → Follows cast labels s t
unfolding check_labels
check-Follows cast labels s u t f h = ground arith

-- In whatever order the labels are visited, each of the fields is decided by its own label: the
-- service type, the exposed hosts and the node port are what the handlers make of their labels, and
-- ports, image and volumes stay. The labels have distinct keys, as those of a map.
pub parse_kompose_labels-Follows :
    (cast : Cast) (labels : Dict Text) (s t : ServiceConfig)
    → AllDistinct (keys labels)
    → parse_kompose_labels cast labels s ≡ ok t
    → Follows cast labels s t
unfolding parse_kompose_labels
parse_kompose_labels-Follows cast labels s t d h =
    let (u, e, c) = >>=-eq-ok (parse_label_loop cast labels s) check_labels h in
    check-Follows cast labels s u t (loop-Follows cast labels s u d e) c

-- ===== src/Kubernetes/Controllers/Kinds.antt =====
-- An update leaves the objects in their places, with their kinds and names.
use kompose.Base.{
  ◌≡◌, refl, ap, ap₂, ◌∙◌, Bool, true, false, List, [], ◌∷◌, ◌++◌, map, Text, codes, ◌==◌, length,
  ltb, if◌then◌else◌,
}
use kompose.Base.Dict.{Dict}
use kompose.Base.Outcome.{
  Outcome, ok, ◌>>=◌, Ensures, Ensures-bind, Ensures-any, Ensures-ok, >>=-eq-ok,
}
use kompose.Host.{Host}
use kompose.Kobject.{ServiceConfig, ConvertOptions}
use kompose.Transformer.Annotations.{config_annotations}
use kompose.Kubernetes.Types.{
  RuntimeObject, ObjectBody, PodTemplateSpec, Claim, deployment, daemon_set, stateful_set, cron_job,
  pod, service, ingress, horizontal_pod_autoscaler, network_policy, config_map_data,
  persistent_volume_claim_spec, secret_data, namespace_only, deployment_config, image_stream,
  build_config, route,
}
use kompose.Kubernetes.Envs.{config_envs}
use kompose.Kubernetes.Volumes.{VolumeConfig}
use kompose.Kubernetes.Controllers.{
  update_controller, update_objects, annotate, all_volumes, for_volumes, claim_object,
  with_volume_objects, update_kubernetes_objects,
}
use kompose.Kubernetes.Controllers.Templates.{fill_template}

-- What says which object it is.
abbrev pub identity : RuntimeObject → Text × Text × Text × Text
identity o = (o.api_version, o.kind, o.meta.name, o.meta.namespace)

module _ (update_template : PodTemplateSpec → Outcome PodTemplateSpec)
    (annotations : Dict Text) where
  templated :
      (o : RuntimeObject) (template : PodTemplateSpec) (next : PodTemplateSpec → RuntimeObject)
      → ((t : PodTemplateSpec) → identity (next t) ≡ identity o)
      → Ensures (λ u. identity u ≡ identity o) (do t ← update_template template; ok (next t))
  templated o template next h =
      Ensures-bind (λ _. Unit) (λ u. identity u ≡ identity o) (update_template template) _
        (Ensures-any _) (λ t _. h t)

  updated-identity :
      (o : RuntimeObject)
      → Ensures
          (λ u. identity u ≡ identity o)
          (update_controller update_template (annotate annotations) o)
  unfolding update_controller
  updated-identity o = by_body o.body
    where
      by_body :
          (body : ObjectBody)
          → Ensures
              (λ u. identity u ≡ identity o)
              (update_controller update_template (annotate annotations) (record o { body = body }))
      by_body (deployment d) = templated o d.template _ (λ t. refl)
      by_body (daemon_set d) = templated o d.template _ (λ t. refl)
      by_body (stateful_set d) = templated o d.template _ (λ t. refl)
      by_body (cron_job d) = templated o d.template _ (λ t. refl)
      by_body (deployment_config d) = templated o d.template _ (λ t. refl)
      by_body (pod spec) = templated o _ _ (λ t. refl)
      by_body (build_config b) = refl
      by_body (service x) = refl
      by_body (ingress x) = refl
      by_body (horizontal_pod_autoscaler x) = refl
      by_body (network_policy x y) = refl
      by_body (config_map_data x) = refl
      by_body (persistent_volume_claim_spec x) = refl
      by_body (secret_data x y) = refl
      by_body namespace_only = refl
      by_body (image_stream x) = refl
      by_body (route x) = refl

  objects-identity :
      (finish : ObjectBody → ObjectBody) (objects : List RuntimeObject)
      → Ensures
          (λ us. map identity us ≡ map identity objects)
          (update_objects update_template (annotate annotations) finish objects)
  unfolding update_objects
  objects-identity finish [] = refl
  objects-identity finish (o ∷ objects) =
      Ensures-bind (λ u. identity u ≡ identity o) _
        (update_controller update_template (annotate annotations) o) _ (updated-identity o)
        (λ u e.
          Ensures-bind (λ us. map identity us ≡ map identity objects) _
            (update_objects update_template (annotate annotations) finish objects) _
            (objects-identity finish objects) (λ us es. ap₂ (λ x xs. x ∷ xs) e es))

claim_identity : Claim → Text × Text × Text × Text
claim_identity c = (c.api_version, c.kind, c.meta.name, c.meta.namespace)

-- The objects, the claims unless they stand in a stateful set, and the config maps.
pub expected_identities :
    ConvertOptions → VolumeConfig → List RuntimeObject → List (Text × Text × Text × Text)
unfolding claim_identity
expected_identities opt v objects =
    map identity objects
    ++ (if opt.controller == codes "statefulset" then [] else map claim_identity v.claims)
    ++ map identity v.config_maps

identities-append :
    (xs ys : List RuntimeObject) → map identity (xs ++ ys) ≡ map identity xs ++ map identity ys
identities-append [] ys = refl
identities-append (x ∷ xs) ys = ap (λ zs. identity x ∷ zs) (identities-append xs ys)

claims-identity :
    (claims : List Claim) → map identity (map claim_object claims) ≡ map claim_identity claims
unfolding claim_identity
claims-identity [] = refl
claims-identity (c ∷ claims) = ap (λ zs. claim_identity c ∷ zs) (claims-identity claims)

with_volume_objects-identity :
    (opt : ConvertOptions) (v : VolumeConfig) (objects : List RuntimeObject)
    → map identity (with_volume_objects opt v objects) ≡ expected_identities opt v objects
unfolding with_volume_objects expected_identities
with_volume_objects-identity opt v objects =
    identities-append
      (objects ++ (if opt.controller == codes "statefulset" then [] else map claim_object v.claims))
      v.config_maps
    ∙ ap (λ xs. xs ++ map identity v.config_maps)
        (identities-append objects
            (if opt.controller == codes "statefulset" then [] else map claim_object v.claims)
          ∙ ap (λ xs. map identity objects ++ xs)
              (by_controller (opt.controller == codes "statefulset")))
  where
    by_controller :
        (b : Bool)
        → map identity (if b then [] else map claim_object v.claims)
          ≡ (if b then [] else map claim_identity v.claims)
    by_controller true = refl
    by_controller false = claims-identity v.claims

-- If the objects of a service can be updated, then its volumes could be made, and the result has the
-- given objects, then the claims of the volumes (none if the controller is the stateful set), then
-- the config maps of the volumes, and nothing else, each with its version, kind, name and namespace.
pub update_kubernetes_objects-identity :
    (host : Host) (name : Text) (s : ServiceConfig) (opt : ConvertOptions)
    (objects result : List RuntimeObject)
    → update_kubernetes_objects host name s opt objects ≡ ok result
    → (v : VolumeConfig) × (all_volumes host opt name s ≡ ok v)
      × (map identity result ≡ expected_identities opt v objects)
unfolding update_kubernetes_objects
update_kubernetes_objects-identity host name s opt objects result e =
    let (envs, got_envs, rest) = >>=-eq-ok (config_envs host.read_env s) _ e in
    let (v, got_v, last) = >>=-eq-ok (all_volumes host opt name s) _ rest in
    (
      v,
      got_v,
      Ensures-ok (λ us. map identity us ≡ map identity (with_volume_objects opt v objects)) _ result
            (objects-identity (fill_template host name s opt envs v) (config_annotations host s)
              (if ltb 0 (length s.volumes) then for_volumes opt v.claims else λ body. body)
              (with_volume_objects opt v objects))
            last
          ∙ with_volume_objects-identity opt v objects,
    )

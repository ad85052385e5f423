-- ===== src/Kubernetes/Controllers.antt =====
-- The update of the controllers that a service got (UpdateController and UpdateKubernetesObjects of
-- pkg/transformer/kubernetes).
pub mod Templates
pub mod Kinds
mod Tests
use kompose.Base.{
  ℕ, Bool, true, false, ◌&&◌, ◌||◌, not, Option, none, some, List, [], ◌∷◌, ◌++◌, map, Text, codes,
  ◌==◌, length, ltb, if◌then◌else◌,
}
use kompose.Base.Dict.{Dict}
use kompose.Base.Outcome.{Outcome, ok, err, panic, ◌>>=◌}
use kompose.Host.{Host}
use kompose.Kobject.{ServiceConfig, ConvertOptions}
use kompose.Transformer.Annotations.{config_annotations}
use kompose.Kubernetes.Types.{
  ObjectMeta, RuntimeObject, ObjectBody, PodSpec, PodTemplateSpec, Claim, deployment, daemon_set,
  stateful_set, cron_job, deployment_config, pod, build_config, persistent_volume_claim_spec,
}
use kompose.Kubernetes.Envs.{config_envs}
use kompose.Kubernetes.Workloads.Choice.{stateful_state_controller}
use kompose.Kubernetes.Volumes.{VolumeConfig, join_volumes, config_volumes, config_tmpfs}
use kompose.Kubernetes.Controllers.Templates.{fill_template, fill_group_template}

module _ (update_template : PodTemplateSpec → Outcome PodTemplateSpec)
    (update_meta : ObjectMeta → ObjectMeta) where
  -- An object that has no template is left as it is.
  unfoldable pub update_controller : RuntimeObject → Outcome RuntimeObject
  update_controller o = elim o.body [
    | deployment d ↦ do
      t ← update_template d.template
      ok (record o { meta = update_meta o.meta; body = deployment (record d { template = t }) })
    | daemon_set d ↦ do
      t ← update_template d.template
      ok (record o { meta = update_meta o.meta; body = daemon_set (record d { template = t }) })
    | stateful_set d ↦ do
      t ← update_template d.template
      ok (record o { meta = update_meta o.meta; body = stateful_set (record d { template = t }) })
    | cron_job d ↦ do
      t ← update_template d.template
      ok (record o { meta = update_meta o.meta; body = cron_job (record d { template = t }) })
    | deployment_config d ↦ do
      t ← update_template d.template
      ok (record o {
        meta = update_meta o.meta;
        body = deployment_config (record d { template = t });
      })
    | pod spec ↦ do
      t ←
          update_template
            (record { labels = o.meta.labels; annotations = o.meta.annotations; spec = spec })
      ok (record o {
        meta = record o.meta { labels = t.labels; annotations = t.annotations };
        body = pod t.spec;
      })
    | build_config b ↦ ok (record o { meta = update_meta o.meta })
    | other ↦ ok o
  ]

-- Claims stand in a stateful set without their version and their kind.
abbrev pub embedded : Claim → Claim
embedded c = record c { api_version = []; kind = [] }

-- What is done with an object of a service that has volumes.
unfoldable pub for_volumes : ConvertOptions → List Claim → ObjectBody → ObjectBody
for_volumes opt claims (deployment d) = deployment (record d { strategy_type = codes "Recreate" })
for_volumes opt claims (deployment_config d) =
    deployment_config (record d { strategy_type = codes "Recreate" })
for_volumes opt claims (stateful_set d) =
    if opt.volumes == codes "configMap"
    then stateful_set d
    else stateful_set (record d { volume_claim_templates = map embedded claims })
for_volumes opt claims other = other

-- Its counterpart for a group.
unfoldable pub for_group_volumes : ObjectBody → ObjectBody
for_group_volumes (deployment d) = deployment (record d { strategy_type = codes "Recreate" })
for_group_volumes (deployment_config d) =
    deployment_config (record d { strategy_type = codes "Recreate" })
for_group_volumes other = other

abbrev pub annotate : Dict Text → ObjectMeta → ObjectMeta
annotate annotations meta = record meta { annotations = annotations }

-- The loop over the objects: the update, then what the volumes ask for.
unfoldable pub update_objects :
    (PodTemplateSpec → Outcome PodTemplateSpec)
    → (ObjectMeta → ObjectMeta)
    → (ObjectBody → ObjectBody)
    → List RuntimeObject
    → Outcome (List RuntimeObject)
unfolding update_controller
update_objects update_template update_meta finish [] = ok []
update_objects update_template update_meta finish (o ∷ objects) =
    let rest = update_objects update_template update_meta finish objects in
    do
      updated ← update_controller update_template update_meta o
      more ← rest
      ok (record updated { body = finish updated.body } ∷ more)

unfoldable pub update_kubernetes_objects_multiple_containers :
    Host
    → Text
    → ServiceConfig
    → ConvertOptions
    → PodSpec
    → List RuntimeObject
    → Outcome (List RuntimeObject)
unfolding fill_group_template config_annotations for_group_volumes update_objects
update_kubernetes_objects_multiple_containers host name s opt pod_spec objects =
    update_objects (fill_group_template name s opt pod_spec) (annotate (config_annotations host s))
      (if ltb 0 (length s.volumes) then for_group_volumes else λ body. body) objects

-- A claim as an object of its own.
abbrev pub claim_object : Claim → RuntimeObject
claim_object c = record {
  api_version = c.api_version;
  kind = c.kind;
  meta = c.meta;
  body = persistent_volume_claim_spec c.spec;
}

-- The volumes of a service with its tmpfs.
unfoldable pub all_volumes : Host → ConvertOptions → Text → ServiceConfig → Outcome VolumeConfig
unfolding config_volumes config_tmpfs
all_volumes host opt name s = do
  v ← config_volumes host opt name s
  ok (join_volumes v (config_tmpfs name s))

-- The objects with the claims, which a stateful set holds itself, and the config maps.
unfoldable pub with_volume_objects :
    ConvertOptions → VolumeConfig → List RuntimeObject → List RuntimeObject
with_volume_objects opt v objects =
    objects
    ++ (if opt.controller == stateful_state_controller then [] else map claim_object v.claims)
    ++ v.config_maps

unfoldable pub update_kubernetes_objects :
    Host → Text → ServiceConfig → ConvertOptions → List RuntimeObject → Outcome (List RuntimeObject)
unfolding config_envs all_volumes with_volume_objects fill_template config_annotations for_volumes
    update_objects
update_kubernetes_objects host name s opt objects = do
  envs ← config_envs host.read_env s
  v ← all_volumes host opt name s
  update_objects (fill_template host name s opt envs v) (annotate (config_annotations host s))
      (if ltb 0 (length s.volumes) then for_volumes opt v.claims else λ body. body)
      (with_volume_objects opt v objects)

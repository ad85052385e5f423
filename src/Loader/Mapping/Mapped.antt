-- ===== src/Loader/Mapping/Mapped.antt =====
-- What the labels, the restart policy and the checks of a mapped service satisfy.
use kompose.Base.{
  ◌≡◌, ◌≢◌, refl, sym, ap, ◌∙◌, subst, true, false, Option, none, some, Option-cases, Bool-cases,
  List, [], ◌∷◌, ◌⊎◌, inl, inr, Text, codes, ◌==◌, ==_iff, arith, All, ℕ,
}
use kompose.Base.Int.{ℤ}
use kompose.Base.Dict.{Dict, insert}
use kompose.Base.Outcome.{ok, >>=-eq-ok}
use kompose.Kobject.{ServiceConfig, Volumes, HealthChecks, FileReference, ConfigObject}
use kompose.Kobject.Project.{KomposeObject}
use kompose.Loader.Labels.{Cast, parse_label, parse_label_loop, check_labels, parse_kompose_labels}
use kompose.Loader.Labels.Consistent.{IsConsistent, parse_kompose_labels-IsConsistent}
use kompose.Loader.Settings.{get_group_add}
use kompose.Loader.Volumes.{handle_volume_in, handle_volume, handled_volumes, retrieve_volume}
use kompose.Loader.Project.{Resource, DeployConfig, BuildConfig, ComposeService, Project}
use kompose.Loader.Mapping.{
  start_of, with_limits, with_reservations, parse_resources, with_deploy, with_build, known_restart,
  with_settings, liveness_of, readiness_of, map_service, key_of, map_services,
  docker_compose_to_kompose_mapping,
}

known_restart-ne : (r : Text) → known_restart r ≢ codes "unless-stopped"
unfolding known_restart
known_restart-ne r = ground (arith, ==_iff r (codes "unless-stopped"))

-- Neither the restart policy nor volumes-from.
abbrev pub Keeps : ServiceConfig → ServiceConfig → Type 0
Keeps s t = (t.restart ≡ s.restart) × (t.volumes_from ≡ s.volumes_from)

module _ (cast : Cast) where
  parse_label-Keeps :
      (key value : Text) (s t : ServiceConfig) → parse_label cast key value s ≡ ok t → Keeps s t
  unfolding parse_label
  parse_label-Keeps key value s t e = (ground arith, ground arith)

  loop-Keeps :
      (labels : Dict Text) (s t : ServiceConfig) → parse_label_loop cast labels s ≡ ok t → Keeps s t
  unfolding parse_label_loop
  loop-Keeps [] s t e = let same : s ≡ t = cc in subst (Keeps s) same (refl, refl)
  loop-Keeps ((key, value) ∷ labels) s t e =
      let (u, first, rest) = >>=-eq-ok (parse_label cast key value s) _ e in
      let (r₁, v₁) = parse_label-Keeps key value s u first in
      let (r₂, v₂) = loop-Keeps labels u t rest in (r₂ ∙ r₁, v₂ ∙ v₁)

check_labels-kept :
    (s t : ServiceConfig)
    → check_labels s ≡ ok t
    → ((t.restart ≡ s.restart) ⊎ (t.restart ≡ codes "on-failure"))
      × (t.volumes_from ≡ s.volumes_from)
unfolding check_labels
check_labels-kept s t e = (ground arith, ground arith)

with_build-Keeps : (b : Option BuildConfig) (s : ServiceConfig) → Keeps s (with_build b s)
unfolding with_build
with_build-Keeps none s = (refl, refl)
with_build-Keeps (some b) s = (refl, refl)

with_deploy-volumes_from :
    (d : Option DeployConfig) (s : ServiceConfig) → (with_deploy d s).volumes_from ≡ s.volumes_from
unfolding with_deploy
with_deploy-volumes_from none s = refl
with_deploy-volumes_from (some d) s = refl

with_limits-volumes_from :
    (r : Option Resource) (s : ServiceConfig) → (with_limits r s).volumes_from ≡ s.volumes_from
unfolding with_limits
with_limits-volumes_from none s = refl
with_limits-volumes_from (some r) s = refl

with_reservations-volumes_from :
    (r : Option Resource) (s : ServiceConfig)
    → (with_reservations r s).volumes_from ≡ s.volumes_from
unfolding with_reservations
with_reservations-volumes_from none s = refl
with_reservations-volumes_from (some r) s = refl

parse_resources-volumes_from :
    (c : ComposeService) (s : ServiceConfig) → (parse_resources c s).volumes_from ≡ s.volumes_from
unfolding parse_resources
parse_resources-volumes_from c s = elim (Option-cases c.deploy) [
  | inl e ↦ rw e refl
  | inr (d, e) ↦
      rw e (with_reservations-volumes_from d.reservations _ ∙ with_limits-volumes_from d.limits _)
]

-- A mapped service is consistent in its labels, restarted in a way that the transformers know of, and
-- takes no volumes from others, whatever the project says.
pub record IsMapped (s : ServiceConfig) : Type 0 where
  pub consistent : IsConsistent s
  pub restart : s.restart ≢ codes "unless-stopped"
  pub own_volumes : s.volumes_from ≡ []

IsConsistent-record :
    (s : ServiceConfig) (configs : List FileReference) (meta : Dict ConfigObject) (groups : List ℤ)
    → IsConsistent s
    → IsConsistent (record s { configs = configs; configs_meta_data = meta; group_add = groups })
IsConsistent-record s configs meta groups c = record {
  tls = c.tls;
  ingress_class = c.ingress_class;
  node_port_type = c.node_port_type;
  node_port_single = c.node_port_single;
  cron_restart = c.cron_restart;
}

on_failure : ◌≡◌ {A = Text} (codes "on-failure") (codes "unless-stopped") → ⊥
unfolding ◌==◌
on_failure e = let differ : false ≡ true = ap (λ (t : Text). t == codes "unless-stopped") e in cc

ok-injective : {a b : ServiceConfig} → ok a ≡ ok b → a ≡ b
ok-injective e = cc

object-injective : {a b : KomposeObject} → ok a ≡ ok b → a ≡ b
object-injective e = cc

-- Every service of a map of services.
abbrev pub AllMapped : Dict ServiceConfig → Type 0
AllMapped = All (λ entry. IsMapped entry.1)

insert-AllMapped :
    (key : Text) (s : ServiceConfig) (services : Dict ServiceConfig)
    → IsMapped s
    → AllMapped services
    → AllMapped (insert key s services)
unfolding insert
insert-AllMapped key s [] m h = (m, tt)
insert-AllMapped key s ((first, old) ∷ rest) m (one, h) = elim (Bool-cases (first == key)) [
  | inl e ↦ rw e (m, h)
  | inr e ↦ rw e (one, insert-AllMapped key s rest m h)
]

with_volumes-IsMapped :
    (s : ServiceConfig) (vols : List Volumes) → IsMapped s → IsMapped (record s { volumes = vols })
with_volumes-IsMapped s vols m = record {
  consistent = record {
    tls = m.consistent.tls;
    ingress_class = m.consistent.ingress_class;
    node_port_type = m.consistent.node_port_type;
    node_port_single = m.consistent.node_port_single;
    cron_restart = m.consistent.cron_restart;
  };
  restart = m.restart;
  own_volumes = m.own_volumes;
}

handle_volume_in-AllMapped :
    (fuel : ℕ) (all : Dict ServiceConfig) (volumes : Dict (Dict Text))
    (services handled : Dict ServiceConfig)
    → AllMapped services
    → handle_volume_in fuel all volumes services ≡ ok handled
    → AllMapped handled
unfolding handle_volume_in
handle_volume_in-AllMapped fuel all volumes [] handled h e =
    let same : [] ≡ handled = cc in subst AllMapped same tt
handle_volume_in-AllMapped fuel all volumes ((name, s) ∷ services) handled (m, h) e =
    let (vols, _, rest) = >>=-eq-ok (handled_volumes volumes (retrieve_volume fuel all name)) _ e in
    let (others, made, last) = >>=-eq-ok (handle_volume_in fuel all volumes services) _ rest in
    let same : (name, record s { volumes = vols }) ∷ others ≡ handled = cc in
    subst AllMapped same (
      with_volumes-IsMapped s vols m,
      handle_volume_in-AllMapped fuel all volumes services others h made,
    )

module _ (cast : Cast) (split_words : Text → List Text) (seconds_of : Text → Option ℤ)
    (lookup_env : Text → Option Text) where
  settings_restart :
      (project : Project) (c : ComposeService) (checks : HealthChecks)
      → (with_settings cast split_words seconds_of lookup_env project c checks).restart
        ≢ codes "unless-stopped"
  unfolding with_settings
  settings_restart project c checks e =
      known_restart-ne _ (sym ((with_build-Keeps c.build _).0) ∙ e)

  settings_volumes_from :
      (project : Project) (c : ComposeService) (checks : HealthChecks)
      → (with_settings cast split_words seconds_of lookup_env project c checks).volumes_from ≡ []
  unfolding with_settings start_of
  settings_volumes_from project c checks =
      (with_build-Keeps c.build _).1
      ∙ with_deploy-volumes_from c.deploy (parse_resources c (start_of project c))
      ∙ parse_resources-volumes_from c (start_of project c)

  abbrev settings_of : Project → ComposeService → HealthChecks → ServiceConfig
  settings_of = with_settings cast split_words seconds_of lookup_env

  labelled-IsMapped :
      (project : Project) (c : ComposeService) (checks : HealthChecks) (s : ServiceConfig)
      → parse_kompose_labels cast c.labels (settings_of project c checks) ≡ ok s
      → IsMapped s
  unfolding parse_kompose_labels
  labelled-IsMapped project c checks s e =
      let (t, looped, checked) =
        >>=-eq-ok (parse_label_loop cast c.labels (settings_of project c checks)) check_labels e in
      let (r₁, v₁) = loop-Keeps cast c.labels _ t looped in
      let (r₂, v₂) = check_labels-kept t s checked in
      record {
        consistent = parse_kompose_labels-IsConsistent cast c.labels _ s e;
        restart = λ bad. elim r₂ [
          | inl kept ↦ settings_restart project c checks (sym r₁ ∙ sym kept ∙ bad)
          | inr failure ↦ on_failure (sym failure ∙ bad)
        ];
        own_volumes = v₂ ∙ v₁ ∙ settings_volumes_from project c checks;
      }

  map_service-IsMapped :
      (project : Project) (c : ComposeService) (s : ServiceConfig)
      → map_service cast split_words seconds_of lookup_env project c ≡ ok s
      → IsMapped s
  unfolding map_service
  map_service-IsMapped project c s e =
      let (liveness, _, rest₁) =
        >>=-eq-ok (liveness_of cast split_words seconds_of lookup_env c) _ e in
      let (readiness, _, rest₂) =
        >>=-eq-ok (readiness_of cast split_words seconds_of lookup_env c) _ rest₁ in
      let checks : HealthChecks = record { liveness = liveness; readiness = readiness } in
      let (labelled, parsed, rest₃) =
        >>=-eq-ok (parse_kompose_labels cast c.labels (settings_of project c checks)) _ rest₂ in
      let (groups, _, last) = >>=-eq-ok (get_group_add c.group_add) _ rest₃ in
      let mapped = labelled-IsMapped project c checks labelled parsed in
      subst IsMapped (ok-injective last) (record {
        consistent =
            IsConsistent-record labelled c.configs project.configs groups mapped.consistent;
        restart = mapped.restart;
        own_volumes = mapped.own_volumes;
      })

  pub map_services-AllMapped :
      (project : Project) (cs : List ComposeService) (services mapped : Dict ServiceConfig)
      → AllMapped services
      → map_services cast split_words seconds_of lookup_env project cs services ≡ ok mapped
      → AllMapped mapped
  unfolding map_services
  map_services-AllMapped project [] services mapped h e =
      let same : services ≡ mapped = cc in subst AllMapped same h
  map_services-AllMapped project (c ∷ cs) services mapped h e =
      let (s, made, rest) =
        >>=-eq-ok (map_service cast split_words seconds_of lookup_env project c) _ e in
      map_services-AllMapped project cs (insert (key_of c) s services) mapped
        (insert-AllMapped _ s services (map_service-IsMapped project c s made) h) rest

  -- Whatever the project, each service of a mapped one is consistent in its labels (a TLS secret or an
  -- ingress class only with an exposed service, a node port only with the type NodePort and one port at
  -- most, no cron job with a concurrency policy restarted always), is not restarted unless-stopped, and
  -- takes volumes from no other service.
  pub docker_compose_to_kompose_mapping-AllMapped :
      (fuel : ℕ) (project : Project) (object : KomposeObject)
      → docker_compose_to_kompose_mapping cast split_words seconds_of lookup_env fuel project
        ≡ ok object
      → AllMapped object.service_configs
  unfolding docker_compose_to_kompose_mapping handle_volume
  docker_compose_to_kompose_mapping-AllMapped fuel project object e =
      let (mapped, made, rest) =
        >>=-eq-ok (map_services cast split_words seconds_of lookup_env project project.services [])
          _ e in
      let (handled, done, last) = >>=-eq-ok (handle_volume fuel mapped project.volumes) _ rest in
      subst (λ (o : KomposeObject). AllMapped o.service_configs) (object-injective last)
        (handle_volume_in-AllMapped fuel mapped project.volumes mapped handled
          (map_services-AllMapped project project.services [] mapped tt made) done)

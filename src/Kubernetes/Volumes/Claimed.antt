-- ===== src/Kubernetes/Volumes/Claimed.antt =====
-- Mounts, volumes and claims belong together.
use kompose.Base.{
  ◌≡◌, refl, sym, ap₂, ◌∙◌, Bool, true, false, inl, inr, List, [], ◌∷◌, ◌++◌, map, map-append, Text,
  codes, ◌==◌, All, All-append, Any, Bool-cases, if◌then◌else◌,
}
use kompose.Base.Outcome.{ok, Ensures, Ensures-bind, Ensures-any, Ensures-ok}
use kompose.Kubernetes.ConfigMaps.{inti_config_map_from_file_or_dir}
use kompose.Host.{Host}
use kompose.Kobject.{Volumes, FileReference, ServiceConfig, ConvertOptions}
use kompose.Kubernetes.Types.{Volume, Claim, persistent_volume_claim}
use kompose.Kubernetes.Formats.{format_resource_name}
use kompose.Kubernetes.Volumes.ConfigFiles.{is_config_file}
use kompose.Kubernetes.Volumes.Sources.{
  VolumeKinds, volume_part, part_of, mount_of, claims_of, create_pvc, claim_size, storage_class,
  config_pvc_volume_source, volume_name_of, is_readonly, config_empty_volume_source, host_path_part,
  config_map_part, claim_part, config_host_path_volume_source, config_config_map_volume_source,
}
use kompose.Kubernetes.Volumes.{
  VolumeConfig, mount_host, of_part, join_volumes, secret_part, config_secret_volumes_from,
  config_secret_volumes, config_volumes_from, config_volumes, volume_kinds,
  reformat_secret_config_underscore_with_dash,
}

-- The volume names a claim, and this is the claim that was made for it: its name is the name in the
-- volume, formatted.
abbrev pub IsClaimOf : Claim → Volume → Type 0
IsClaimOf c v =
    (n : Text) × (r : Bool) × (v.source ≡ persistent_volume_claim n r)
    × (c.meta.name ≡ format_resource_name n)

-- Each mount names the volume of its place, and each claim belongs to a volume.
abbrev pub IsMatched : VolumeConfig → Type 0
IsMatched v =
    (map (λ m. m.name) v.volume_mounts ≡ map (λ w. w.name) v.volumes)
    × All (λ c. Any (IsClaimOf c) v.volumes) v.claims

Any-left : (P : Volume → Type 0) (xs ys : List Volume) → Any P xs → Any P (xs ++ ys)
Any-left P [] ys x = elim x [ ]
Any-left P (x ∷ xs) ys (inl p) = inl p
Any-left P (x ∷ xs) ys (inr p) = inr (Any-left P xs ys p)

Any-right : (P : Volume → Type 0) (xs ys : List Volume) → Any P ys → Any P (xs ++ ys)
Any-right P [] ys p = p
Any-right P (x ∷ xs) ys p = inr (Any-right P xs ys p)

All-implies :
    (P Q : Claim → Type 0) (cs : List Claim) → ((c : Claim) → P c → Q c) → All P cs → All Q cs
All-implies P Q [] f h = tt
All-implies P Q (c ∷ cs) f h = (f c h.0, All-implies P Q cs f h.1)

join-IsMatched : (a b : VolumeConfig) → IsMatched a → IsMatched b → IsMatched (join_volumes a b)
join-IsMatched a b (ea, ca) (eb, cb) = (
  map-append (λ m. m.name) a.volume_mounts b.volume_mounts
      ∙ ap₂ (λ x y. x ++ y) ea eb
      ∙ sym (map-append (λ w. w.name) a.volumes b.volumes),
  All-append (λ c. Any (IsClaimOf c) (a.volumes ++ b.volumes)) a.claims b.claims
      (All-implies _ _ a.claims (λ c. Any-left (IsClaimOf c) a.volumes b.volumes) ca)
      (All-implies _ _ b.claims (λ c. Any-right (IsClaimOf c) a.volumes b.volumes) cb),
)

secrets-IsMatched :
    (host : Host) (as_files : Bool) (secrets : List FileReference)
    → IsMatched (config_secret_volumes_from host as_files secrets)
unfolding config_secret_volumes_from secret_part
secrets-IsMatched host as_files [] = (refl, tt)
secrets-IsMatched host as_files (c ∷ secrets) =
    join-IsMatched
      (of_part (secret_part host as_files (reformat_secret_config_underscore_with_dash c)))
      (config_secret_volumes_from host as_files secrets) (refl, tt)
      (secrets-IsMatched host as_files secrets)

module _ (host : Host) (opt : ConvertOptions) (s : ServiceConfig) where
  created-name :
      (name mode size selector class : Text)
      → Ensures
          (λ c. c.meta.name ≡ format_resource_name name)
          (create_pvc host name mode size selector class)
  unfolding create_pvc
  created-name name mode size selector class = elim (Bool-cases (host.is_quantity size)) [
    | inl b ↦ rw b refl
    | inr b ↦ rw b tt
  ]

  claims-name :
      (name : Text) (volume : Volumes)
      → Ensures
          (λ cs. All (λ c. c.meta.name ≡ format_resource_name name) cs)
          (claims_of host opt s name volume)
  unfolding claims_of
  claims-name name volume = elim (Bool-cases (volume.v_from == [])) [
    | inl b ↦ rw b (
        Ensures-bind (λ c. c.meta.name ≡ format_resource_name name) _
          (create_pvc host name volume.mode (claim_size opt s volume) volume.selector_value
            (storage_class s volume))
          _
          (created-name name volume.mode (claim_size opt s volume) volume.selector_value
            (storage_class s volume))
          (λ c e. (e, tt)))
    | inr b ↦ rw b tt
  ]

  claimed :
      (name : Text) (volume : Volumes) (cs : List Claim)
      → All (λ c. c.meta.name ≡ format_resource_name name) cs
      → IsMatched (
          of_part
            (part_of s name volume [] (config_pvc_volume_source name (is_readonly volume)) cs []))
  unfolding mount_of config_pvc_volume_source
  claimed name volume cs h =
      (refl, All-implies _ _ cs (λ c e. inl (name, is_readonly volume, refl, e)) h)

  host_path-IsMatched :
      (n : Text) (volume : Volumes)
      → Ensures (λ p. IsMatched (of_part p)) (host_path_part host opt s n volume)
  unfolding host_path_part mount_of
  host_path-IsMatched n volume =
      Ensures-bind (λ _. Unit) _ (config_host_path_volume_source host opt volume.host) _
        (Ensures-any _) (λ source _. (refl, tt))

  config_map-IsMatched :
      (name n : Text) (volume : Volumes)
      → Ensures (λ p. IsMatched (of_part p)) (config_map_part host name s n volume)
  unfolding config_map_part mount_of
  config_map-IsMatched name n volume =
      Ensures-bind (λ _. Unit) (λ p. IsMatched (of_part p))
        (inti_config_map_from_file_or_dir host name n volume.host s) _ (Ensures-any _)
        (λ cm _.
          Ensures-bind (λ _. Unit) (λ p. IsMatched (of_part p))
            (config_config_map_volume_source n volume.container cm) _ (Ensures-any _)
            (λ source _. (refl, tt)))

  claim-IsMatched :
      (n : Text) (volume : Volumes)
      → Ensures (λ p. IsMatched (of_part p)) (claim_part host opt s n volume)
  unfolding claim_part
  claim-IsMatched n volume =
      Ensures-bind (λ cs. All (λ c. c.meta.name ≡ format_resource_name n) cs) _
        (claims_of host opt s n volume) _ (claims-name n volume) (λ cs h. claimed n volume cs h)

  part-IsMatched :
      (name : Text) (kinds : VolumeKinds) (use_config_map : Bool) (volume : Volumes)
      → Ensures
          (λ p. IsMatched (of_part p))
          (volume_part host opt name s kinds use_config_map volume)
  unfolding volume_part mount_of
  part-IsMatched name kinds use_config_map volume =
      by_kind kinds.use_empty_volumes kinds.use_host_path use_config_map
        (volume_name_of name s kinds use_config_map volume)
    where
      by_kind :
          (e h u : Bool) (n : Text)
          → Ensures
              (λ p. IsMatched (of_part p))
              (if e
                then ok (part_of s n volume [] (config_empty_volume_source (codes "volume")) [] [])
                else if h
                then host_path_part host opt s n volume
                else if u
                then config_map_part host name s n volume
                else claim_part host opt s n volume)
      by_kind true h u n = (refl, tt)
      by_kind false true u n = host_path-IsMatched n volume
      by_kind false false true n = config_map-IsMatched name n volume
      by_kind false false false n = claim-IsMatched n volume

  volumes-IsMatched :
      (name : Text) (kinds : VolumeKinds) (volumes : List Volumes)
      → Ensures IsMatched (config_volumes_from host opt name s kinds volumes)
  unfolding config_volumes_from
  volumes-IsMatched name kinds [] = (refl, tt)
  volumes-IsMatched name kinds (volume ∷ volumes) =
      let file = is_config_file host (mount_host volume) in
      elim (Bool-cases file.skip) [
        | inl b ↦ rw b (volumes-IsMatched name kinds volumes)
        | inr b ↦ rw b (
            Ensures-bind (λ p. IsMatched (of_part p)) IsMatched
              (volume_part host opt name s kinds file.use_config_map volume) _
              (part-IsMatched name kinds file.use_config_map volume)
              (λ p h.
                Ensures-bind IsMatched IsMatched (config_volumes_from host opt name s kinds volumes)
                  _ (volumes-IsMatched name kinds volumes)
                  (λ v g. join-IsMatched (of_part p) v h g)))
      ]

  volumes-Ensures : (name : Text) → Ensures IsMatched (config_volumes host opt name s)
  unfolding config_volumes config_secret_volumes
  volumes-Ensures name =
      Ensures-bind (λ _. Unit) IsMatched (volume_kinds s opt) _ (Ensures-any _)
        (λ kinds _.
          Ensures-bind IsMatched IsMatched (config_volumes_from host opt name s kinds s.volumes) _
            (volumes-IsMatched name kinds s.volumes)
            (λ v h.
              join-IsMatched (config_secret_volumes host opt s) v
                (secrets-IsMatched host opt.secrets_as_files s.secrets) h))

  -- If the volumes of a service can be made, then each mount names the volume in its place, and each
  -- claim is made for a volume that names a claim, under that name in the form of a resource name.
  pub config_volumes-IsMatched :
      (name : Text) (v : VolumeConfig) → config_volumes host opt name s ≡ ok v → IsMatched v
  config_volumes-IsMatched name v e =
      Ensures-ok IsMatched (config_volumes host opt name s) v (volumes-Ensures name) e

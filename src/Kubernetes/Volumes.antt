-- ===== src/Kubernetes/Volumes.antt =====
-- The volumes of a service and their mounts (pkg/transformer/kubernetes/kubernetes.go).
pub mod ConfigFiles
pub mod Sources
pub mod Claimed
mod Tests
use kompose.Base.{
  ℕ, suc, ◌+◌, Bool, true, false, ◌&&◌, ◌||◌, not, Option, none, some, List, [], ◌∷◌, ◌++◌, Text,
  codes, ◌==◌, length, ltb, any, split, has_prefix, trim_prefix, if◌then◌else◌,
}
use kompose.Base.Int.{ℤ, pos, to_int32}
use kompose.Base.Decimal.{itoa_ℕ}
use kompose.Base.Dict.{Dict, lookup}
use kompose.Base.Outcome.{Outcome, ok, err, panic, ◌>>=◌}
use kompose.Host.{Host}
use kompose.Kobject.{Volumes, FileReference, ServiceConfig, ConvertOptions}
use kompose.App.{is_valid_volume}
use kompose.Kubernetes.Types.{
  Volume, VolumeMount, VolumeSource, Claim, RuntimeObject, empty_dir, secret,
}
use kompose.Kubernetes.Formats.{format_resource_name}
use kompose.Kubernetes.Secrets.{SecretPaths, get_secret_paths, get_secret_paths_legacy}
use kompose.Kubernetes.Volumes.ConfigFiles.{is_config_file}
use kompose.Kubernetes.Volumes.Sources.{
  VolumePart, VolumeKinds, config_empty_volume_source, volume_part,
}

unfoldable pub reformat_secret_config_underscore_with_dash : FileReference → FileReference
unfolding format_resource_name
reformat_secret_config_underscore_with_dash config = record config {
  source = format_resource_name config.source;
  target = format_resource_name config.target;
}

-- What ConfigVolumes returns.
pub record VolumeConfig : Type 0 where
  pub volume_mounts : List VolumeMount
  pub volumes : List Volume
  pub claims : List Claim
  pub config_maps : List RuntimeObject

abbrev pub no_volumes : VolumeConfig
no_volumes = record { volume_mounts = []; volumes = []; claims = []; config_maps = [] }

-- `append` of all that a round makes
abbrev pub join_volumes : VolumeConfig → VolumeConfig → VolumeConfig
join_volumes a b = record {
  volume_mounts = a.volume_mounts ++ b.volume_mounts;
  volumes = a.volumes ++ b.volumes;
  claims = a.claims ++ b.claims;
  config_maps = a.config_maps ++ b.config_maps;
}

abbrev pub of_part : VolumePart → VolumeConfig
of_part p = record {
  volume_mounts = p.mount ∷ [];
  volumes = p.volume ∷ [];
  claims = p.claims;
  config_maps = p.config_maps;
}

-- The loop over the tmpfs volumes from the index on.
unfoldable pub config_tmpfs_from : Text → ℕ → List Text → VolumeConfig
unfolding itoa_ℕ split config_empty_volume_source
config_tmpfs_from name index [] = no_volumes
config_tmpfs_from name index (volume ∷ tmp_fs) =
    let rest = config_tmpfs_from name (suc index) tmp_fs in
    let volume_name = name ++ codes "-tmpfs" ++ itoa_ℕ index in
    join_volumes
      (record {
        volume_mounts =
            record {
              name = volume_name;
              read_only = false;
              mount_path = elim (split volume b':') [ [] ↦ [] | path ∷ options ↦ path ];
              sub_path = [];
            }
            ∷ [];
        volumes =
            record { name = volume_name; source = config_empty_volume_source (codes "tmpfs") } ∷ [];
        claims = [];
        config_maps = [];
      })
      rest

unfoldable pub config_tmpfs : Text → ServiceConfig → VolumeConfig
unfolding config_tmpfs_from
config_tmpfs name s = config_tmpfs_from name 0 s.tmp_fs

unfoldable pub secret_part : Host → Bool → FileReference → VolumePart
unfolding get_secret_paths get_secret_paths_legacy
secret_part host as_files config =
    let paths = if as_files then get_secret_paths config else get_secret_paths_legacy config in
    record {
      mount = record {
        name = config.source;
        read_only = false;
        mount_path = paths.secret_mount_path;
        sub_path = paths.secret_sub_path;
      };
      volume = record {
        name = config.source;
        source =
            secret config.source
              (record { key = config.source; path = paths.secret_item_path } ∷ [])
              (elim config.mode [ none ↦ none | some mode ↦ some (host.to_int32 mode) ]);
      };
      claims = [];
      config_maps = [];
    }

-- The loop over the secrets.
unfoldable pub config_secret_volumes_from : Host → Bool → List FileReference → VolumeConfig
unfolding secret_part reformat_secret_config_underscore_with_dash
config_secret_volumes_from host as_files [] = no_volumes
config_secret_volumes_from host as_files (config ∷ secrets) =
    let rest = config_secret_volumes_from host as_files secrets in
    join_volumes
      (of_part (secret_part host as_files (reformat_secret_config_underscore_with_dash config)))
      rest

unfoldable pub config_secret_volumes : Host → ConvertOptions → ServiceConfig → VolumeConfig
unfolding config_secret_volumes_from
config_secret_volumes host opt s = config_secret_volumes_from host opt.secrets_as_files s.secrets

-- The kinds that the options or the label ask for; an unknown label is an error.
unfoldable pub volume_kinds : ServiceConfig → ConvertOptions → Outcome VolumeKinds
unfolding lookup is_valid_volume
volume_kinds s opt = elim (lookup (codes "kompose.volume.type") s.labels) [
  | none ↦ ok (record {
    use_empty_volumes = opt.empty_vols || opt.volumes == codes "emptyDir";
    use_host_path = opt.volumes == codes "hostPath";
  })
  | some vt ↦
      if is_valid_volume vt
      then ok (record {
        use_empty_volumes = vt == codes "emptyDir";
        use_host_path = vt == codes "hostPath";
      })
      else err
]

-- The path that is looked at for a config map.
abbrev pub mount_host : Volumes → Text
mount_host volume = if volume.host == [] then volume.mount_path else volume.host

-- The loop over the volumes. Whether a config map is used is said by the file system alone: the value
-- of the options and of the label is overwritten.
unfoldable pub config_volumes_from :
    Host → ConvertOptions → Text → ServiceConfig → VolumeKinds → List Volumes → Outcome VolumeConfig
unfolding is_config_file volume_part
config_volumes_from host opt name s kinds [] = ok no_volumes
config_volumes_from host opt name s kinds (volume ∷ volumes) =
    let rest = config_volumes_from host opt name s kinds volumes in
    let file = is_config_file host (mount_host volume) in
    if file.skip then rest else do
      part ← volume_part host opt name s kinds file.use_config_map volume
      more ← rest
      ok (join_volumes (of_part part) more)

unfoldable pub config_volumes : Host → ConvertOptions → Text → ServiceConfig → Outcome VolumeConfig
unfolding volume_kinds config_secret_volumes config_volumes_from
config_volumes host opt name s = do
  kinds ← volume_kinds s opt
  made ← config_volumes_from host opt name s kinds s.volumes
  ok (join_volumes (config_secret_volumes host opt s) made)

-- ===== src/Kubernetes/Volumes/Sources.antt =====
-- One volume of a service: its name, its source and what is made for it
-- (pkg/transformer/kubernetes/kubernetes.go).
use kompose.Base.{
  Bool, ◌||◌, none, some, List, [], ◌∷◌, ◌++◌, map, Text, codes, ◌==◌, has_prefix, trim_prefix,
  if◌then◌else◌,
}
use kompose.Base.Dict.{lookup, get_text}
use kompose.Base.Outcome.{Outcome, ok, err, panic, ◌>>=◌}
use kompose.Host.{Host}
use kompose.Kobject.{Volumes, ServiceConfig, ConvertOptions}
use kompose.Transformer.Labels.{config_labels}
use kompose.Kubernetes.Types.{
  Volume, VolumeMount, VolumeSource, KeyToPath, Claim, RuntimeObject, empty_dir, config_map,
  persistent_volume_claim, host_path, config_map_data,
}
use kompose.Kubernetes.Formats.{format_resource_name, file_of}
use kompose.Kubernetes.Policies.{set_volume_access_mode}
use kompose.Kubernetes.ConfigMaps.{
  get_compose_file_dir, inti_config_map_from_file_or_dir, use_sub_path_mount,
}

-- strings.Replace(s, old, new, 1)
unfoldable pub replace_first : Text → Text → Text → Text
replace_first old new [] = if old == [] then new else []
replace_first old new (c ∷ s) =
    let rest = replace_first old new s in
    if has_prefix (c ∷ s) old then new ++ trim_prefix (c ∷ s) old else c ∷ rest

unfoldable pub create_pvc : Host → Text → Text → Text → Text → Text → Outcome Claim
unfolding format_resource_name config_labels set_volume_access_mode
create_pvc host name mode size selector_value storage_class_name =
    if host.is_quantity size
    then ok (record {
      api_version = codes "v1";
      kind = codes "PersistentVolumeClaim";
      meta = record {
        name = format_resource_name name;
        namespace = [];
        labels = config_labels name;
        annotations = [];
      };
      spec = record {
        storage = size;
        match_labels = if selector_value == [] then none else some (config_labels selector_value);
        access_modes = set_volume_access_mode mode [];
        storage_class_name = if storage_class_name == [] then none else some storage_class_name;
      };
    })
    else err

unfoldable pub config_empty_volume_source : Text → VolumeSource
config_empty_volume_source key =
    if key == codes "tmpfs" then empty_dir (codes "Memory") else empty_dir []

-- The keys of a config map: those of its data, then those of its binary data.
abbrev pub keys_of : RuntimeObject → List Text
keys_of cm = elim cm.body [
  | config_map_data d ↦ map (λ e. e.0) d.data_entries ++ map (λ e. e.0) d.binary_data
  | other ↦ []
]

-- `keys[0]` panics where there is none.
unfoldable pub config_config_map_volume_source :
    Text → Text → RuntimeObject → Outcome (List KeyToPath × VolumeSource)
unfolding use_sub_path_mount file_of
config_config_map_volume_source cm_name target_path cm =
    if use_sub_path_mount cm
    then elim (keys_of cm) [
      | [] ↦ panic
      | key ∷ keys ↦
          let items = record { key = key; path = file_of target_path } ∷ [] in
          ok (items, config_map cm_name items none)
    ]
    else ok ([], config_map cm_name [] none)

unfoldable pub config_host_path_volume_source : Host → ConvertOptions → Text → Outcome VolumeSource
unfolding get_compose_file_dir
config_host_path_volume_source host opt path = do
  dir ← get_compose_file_dir host opt.input_files
  ok (host_path (if host.is_abs path then path else host.join_path dir path))

unfoldable pub config_pvc_volume_source : Text → Bool → VolumeSource
config_pvc_volume_source name readonly = persistent_volume_claim name readonly

pub record VolumeKinds : Type 0 where
  pub use_empty_volumes : Bool
  pub use_host_path : Bool

-- What one round of the loop over the volumes makes.
pub record VolumePart : Type 0 where
  pub mount : VolumeMount
  pub volume : Volume
  pub claims : List Claim
  pub config_maps : List RuntimeObject

unfoldable pub volume_name_of : Text → ServiceConfig → VolumeKinds → Bool → Volumes → Text
unfolding replace_first
volume_name_of name s kinds use_config_map volume =
    let renamed =
      if kinds.use_empty_volumes
      then replace_first (codes "claim") (codes "empty") volume.pvc_name
      else if kinds.use_host_path
      then replace_first (codes "claim") (codes "hostpath") volume.pvc_name
      else if use_config_map
      then replace_first (codes "claim") (codes "cm") volume.pvc_name
      else volume.pvc_name in
    if volume.volume_name == [] then replace_first s.name name renamed else volume.volume_name

abbrev pub is_readonly : Volumes → Bool
is_readonly volume = volume.mode == codes "ro" || volume.mode == codes "rox"

-- The mount, with the sub path of the label before any other.
unfoldable pub mount_of : ServiceConfig → Text → Volumes → Text → VolumeMount
unfolding get_text
mount_of s volume_name volume sub_path =
    let label = get_text (codes "kompose.volume.subpath") s.labels in
    record {
      name = volume_name;
      read_only = is_readonly volume;
      mount_path = volume.container;
      sub_path = if label == [] then sub_path else label;
    }

-- The volume of that source, with what is made for it.
abbrev pub part_of :
    ServiceConfig
    → Text
    → Volumes
    → Text
    → VolumeSource
    → List Claim
    → List RuntimeObject
    → VolumePart
part_of s volume_name volume sub_path source claims config_maps = record {
  mount = mount_of s volume_name volume sub_path;
  volume = record { name = volume_name; source = source };
  claims = claims;
  config_maps = config_maps;
}

-- The size of a claim: the volume's, the label's, the option's or the default.
unfoldable pub claim_size : ConvertOptions → ServiceConfig → Volumes → Text
unfolding lookup
claim_size opt s volume =
    let default = if opt.pvc_request_size == [] then codes "100Mi" else opt.pvc_request_size in
    if volume.pvc_size == []
    then elim (lookup (codes "kompose.volume.size") s.labels) [ none ↦ default | some size ↦ size ]
    else volume.pvc_size

-- The storage class is read where the volume has no size of its own.
unfoldable pub storage_class : ServiceConfig → Volumes → Text
unfolding get_text
storage_class s volume =
    if volume.pvc_size == []
    then get_text (codes "kompose.volume.storage-class-name") s.labels
    else []

-- A volume from another service has no claim of its own.
unfoldable pub claims_of :
    Host → ConvertOptions → ServiceConfig → Text → Volumes → Outcome (List Claim)
unfolding create_pvc claim_size storage_class
claims_of host opt s volume_name volume =
    if volume.v_from == []
    then (do
      claim ←
          create_pvc host volume_name volume.mode (claim_size opt s volume) volume.selector_value
            (storage_class s volume)
      ok (claim ∷ []))
    else ok []

-- `volsource.ConfigMap.Items[0].Path`
unfoldable pub item_path : List KeyToPath → Text
item_path [] = []
item_path (item ∷ items) = item.path

unfoldable pub host_path_part :
    Host → ConvertOptions → ServiceConfig → Text → Volumes → Outcome VolumePart
unfolding mount_of config_host_path_volume_source
host_path_part host opt s volume_name volume = do
  source ← config_host_path_volume_source host opt volume.host
  ok (part_of s volume_name volume [] source [] [])

unfoldable pub config_map_part : Host → Text → ServiceConfig → Text → Volumes → Outcome VolumePart
unfolding mount_of inti_config_map_from_file_or_dir config_config_map_volume_source item_path
config_map_part host name s volume_name volume = do
  cm ← inti_config_map_from_file_or_dir host name volume_name volume.host s
  source ← config_config_map_volume_source volume_name volume.container cm
  ok (part_of s volume_name volume (item_path source.0) source.1 [] (cm ∷ []))

unfoldable pub claim_part :
    Host → ConvertOptions → ServiceConfig → Text → Volumes → Outcome VolumePart
unfolding mount_of claims_of config_pvc_volume_source
claim_part host opt s volume_name volume = do
  claims ← claims_of host opt s volume_name volume
  ok (
      part_of s volume_name volume [] (config_pvc_volume_source volume_name (is_readonly volume))
        claims [])

unfoldable pub volume_part :
    Host → ConvertOptions → Text → ServiceConfig → VolumeKinds → Bool → Volumes → Outcome VolumePart
unfolding volume_name_of mount_of config_empty_volume_source host_path_part config_map_part
    claim_part
volume_part host opt name s kinds use_config_map volume =
    let volume_name = volume_name_of name s kinds use_config_map volume in
    if kinds.use_empty_volumes
    then ok (part_of s volume_name volume [] (config_empty_volume_source (codes "volume")) [] [])
    else if kinds.use_host_path
    then host_path_part host opt s volume_name volume
    else if use_config_map
    then config_map_part host name s volume_name volume
    else claim_part host opt s volume_name volume

-- ===== src/Kubernetes/ConfigMaps.antt =====
-- The config maps of configs, files and env files (pkg/transformer/kubernetes/kubernetes.go, and
-- IntiConfigMapFromFileOrDir of k8sutils.go).
pub mod Configs
use kompose.Base.{
  ℕ, Bool, true, false, Option, none, some, List, [], ◌∷◌, ◌++◌, Text, codes, ◌==◌, nat_eq, ◌&&◌,
  if◌then◌else◌,
}
use kompose.Base.Dict.{Dict, lookup, insert, get_text}
use kompose.Base.Outcome.{Outcome, ok, err, panic, ◌>>=◌, or_panic}
use kompose.Host.{Host}
use kompose.Host.Files.{
  FileTree, Entries, regular, special, directory, unreadable, no_entries, entry, is_dir,
}
use kompose.Kobject.{EnvVar, FileReference, ConfigObject, ServiceConfig, ConvertOptions}
use kompose.Transformer.Labels.{config_labels}
use kompose.Kubernetes.Types.{RuntimeObject, ConfigMapData, config_map_data}
use kompose.Kubernetes.Formats.{base_name, format_file_name, format_env_name}

unfoldable pub to_outcome {ℓ} : {A : Type ℓ} → Option A → Outcome A
to_outcome none = err
to_outcome (some x) = ok x

unfoldable pub get_compose_file_dir : Host → List Text → Outcome Text
unfolding to_outcome
get_compose_file_dir host [] = err
get_compose_file_dir host (file ∷ files) = do
  input_file ← to_outcome (host.abs_path file)
  ok (host.dir_of input_file)

-- The config map of that name, with the labels of `of`.
abbrev pub config_map : Text → Text → Dict Text → ConfigMapData → RuntimeObject
config_map name of annotations entries = record {
  api_version = codes "v1";
  kind = codes "ConfigMap";
  meta = record {
    name = name;
    namespace = [];
    labels = config_labels of;
    annotations = annotations;
  };
  body = config_map_data entries;
}

-- strings.Replace(v, "\r\n", "\n", -1)
unfoldable pub to_line_feeds : Text → Text
to_line_feeds [] = []
to_line_feeds (c ∷ []) = c ∷ []
to_line_feeds (c ∷ d ∷ s) =
    let rest = to_line_feeds (d ∷ s) in if nat_eq c 13 && nat_eq d 10 then rest else c ∷ rest

-- Text stands in the data, all else in the binary data.
unfoldable pub init_config_map_data : Host → Dict Text → ConfigMapData
unfolding to_line_feeds
init_config_map_data host [] = record { data_entries = []; binary_data = [] }
init_config_map_data host ((k, v) ∷ entries) =
    let rest = init_config_map_data host entries in
    let line_feeds = to_line_feeds v in
    if host.is_text line_feeds
    then record rest { data_entries = (k, line_feeds) ∷ rest.data_entries }
    else record rest { binary_data = (k, host.encode_to_string v) ∷ rest.binary_data }

unfoldable pub init_config_map_from_content : Host → Text → Text → Text → Text → RuntimeObject
unfolding init_config_map_data base_name config_labels
init_config_map_from_content host name content current_config_name target =
    config_map current_config_name name []
      (init_config_map_data host ((base_name target, content) ∷ []))

-- The loop over the configs: the last one that is met with the file.
unfoldable pub config_of_file : Text → Dict ConfigObject → Text → Text
config_of_file file [] found = found
config_of_file file ((key, config) ∷ configs) found =
    config_of_file file configs (if config.file == file then key else found)

unfoldable pub init_config_map_from_file :
    Host → Text → ServiceConfig → Text → Outcome RuntimeObject
unfolding to_outcome config_of_file init_config_map_data base_name format_file_name config_labels
init_config_map_from_file host name s file = do
  content ← or_panic (to_outcome (host.read_file file))
  ok (
      config_map (format_file_name (config_of_file file s.configs_meta_data [])) name []
        (init_config_map_data host ((base_name file, content) ∷ [])))

-- The loop over the entries of a directory.
unfoldable pub read_entries : Host → Text → Entries → Outcome (Dict Text)
unfolding to_outcome
read_entries host path no_entries = ok []
read_entries host path (entry name tree files) =
    let rest = read_entries host path files in
    if is_dir tree then rest else do
      content ← to_outcome (host.read_file (path ++ b'/' ∷ name))
      more ← rest
      ok ((name, content) ∷ more)

unfoldable pub config_map_of_tree :
    Host → Text → Text → Text → ServiceConfig → FileTree → Outcome RuntimeObject
unfolding read_entries init_config_map_data init_config_map_from_file config_labels
config_map_of_tree host name cm_name path s (directory files) = do
  data_map ← read_entries host path files
  ok (config_map cm_name name [] (init_config_map_data host data_map))
config_map_of_tree host name cm_name path s regular = do
  made ← init_config_map_from_file host name s path
  ok (record made {
    meta = record made.meta {
      name = cm_name;
      annotations = (codes "use-subpath", codes "true") ∷ [];
    };
  })
config_map_of_tree host name cm_name path s unreadable = err
config_map_of_tree host name cm_name path s special =
    ok (config_map cm_name name [] (record { data_entries = []; binary_data = [] }))

unfoldable pub inti_config_map_from_file_or_dir :
    Host → Text → Text → Text → ServiceConfig → Outcome RuntimeObject
unfolding to_outcome config_map_of_tree
inti_config_map_from_file_or_dir host name cm_name path s = do
  tree ← to_outcome (host.stat path)
  config_map_of_tree host name cm_name path s tree

-- In this situation the config map has one key.
unfoldable pub use_sub_path_mount : RuntimeObject → Bool
unfolding get_text
use_sub_path_mount cm = get_text (codes "use-subpath") cm.meta.annotations == codes "true"

-- What both functions for env files do with the variables.
unfoldable pub config_map_for_env : Text → Text → Outcome (Dict Text) → Outcome RuntimeObject
unfolding format_env_name config_labels
config_map_for_env name env_file variables = do
  envs ← or_panic variables
  env_name ← format_env_name env_file name
  ok (
      config_map env_name (name ++ b'-' ∷ env_name) []
        (record { data_entries = envs; binary_data = [] }))

unfoldable pub init_config_map_for_env : Host → Text → ConvertOptions → Text → Outcome RuntimeObject
unfolding get_compose_file_dir config_map_for_env to_outcome
init_config_map_for_env host name opt env_file = do
  work_dir ← or_panic (get_compose_file_dir host opt.input_files)
  config_map_for_env name env_file
      (to_outcome (host.read_variables (host.join_path work_dir env_file)))

unfoldable pub init_config_map_for_env_with_lookup :
    Host → Text → ConvertOptions → Text → (Text → Option Text) → Outcome RuntimeObject
unfolding get_compose_file_dir config_map_for_env to_outcome
init_config_map_for_env_with_lookup host name opt env_file look = do
  work_dir ← or_panic (get_compose_file_dir host opt.input_files)
  config_map_for_env name env_file
      (to_outcome (host.read_with_lookup look (host.join_path work_dir env_file)))

-- The map of a service's variables: a later one replaces an earlier one of its name.
unfoldable pub variables_from : List EnvVar → Dict Text → Dict Text
unfolding insert
variables_from [] envs = envs
variables_from (v ∷ environment) envs = variables_from environment (insert v.name v.value envs)

-- The loop over the env files.
unfoldable pub env_config_maps :
    Host → Text → ConvertOptions → (Text → Option Text) → List Text → Outcome (List RuntimeObject)
unfolding init_config_map_for_env_with_lookup
env_config_maps host name opt look [] = ok []
env_config_maps host name opt look (file ∷ files) =
    let rest = env_config_maps host name opt look files in
    do
      config_map ← init_config_map_for_env_with_lookup host name opt file look
      more ← rest
      ok (config_map ∷ more)

unfoldable pub parge_env_file_to_config_maps :
    Host → Text → ServiceConfig → ConvertOptions → Outcome (List RuntimeObject)
unfolding variables_from env_config_maps lookup
parge_env_file_to_config_maps host name s opt =
    env_config_maps host name opt (λ key. lookup key (variables_from s.environment [])) s.env_file

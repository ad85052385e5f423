-- ===== src/Kubernetes/Volumes/ConfigFiles.antt =====
-- Whether a path is taken for a config map (isConfigFile of pkg/transformer/kubernetes/k8sutils.go).
use kompose.Base.{Bool, true, false, ◌||◌, none, some, [], ◌∷◌, Text, codes, ◌==◌, if◌then◌else◌}
use kompose.Host.{Host}
use kompose.Host.Files.{FileTree, check_is_empty_dir, is_dir}

unfoldable pub has_suffix : Text → Text → Bool
has_suffix p [] = p == []
has_suffix p (c ∷ s) = let rest = has_suffix p s in if c ∷ s == p then true else rest

-- The results of isConfigFile.
pub record ConfigFile : Type 0 where
  pub use_config_map : Bool
  pub readonly : Bool
  pub skip : Bool

abbrev pub skipped : ConfigFile
skipped = record { use_config_map = false; readonly = false; skip = true }

abbrev pub not_config : ConfigFile
not_config = record { use_config_map = false; readonly = false; skip = false }

abbrev pub config_file : ConfigFile
config_file = record { use_config_map = true; readonly = true; skip = false }

-- A file is one; a directory is one that is not empty.
unfoldable pub config_file_at : FileTree → ConfigFile
unfolding check_is_empty_dir
config_file_at tree =
    if is_dir tree
    then elim (check_is_empty_dir tree) [
      | none ↦ skipped
      | some empty ↦ if empty then not_config else config_file
    ]
    else config_file

unfoldable pub is_config_file : Host → Text → ConfigFile
unfolding has_suffix config_file_at
is_config_file host path =
    if path == [] || has_suffix (codes ".sock") path
    then skipped
    else elim (host.stat path) [ none ↦ not_config | some tree ↦ config_file_at tree ]

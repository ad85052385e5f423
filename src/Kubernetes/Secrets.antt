-- ===== src/Kubernetes/Secrets.antt =====
-- Where a secret is mounted (pkg/transformer/kubernetes/kubernetes.go).
pub mod Paths
mod Tests
use kompose.Base.{
  ℕ, Bool, true, false, Option, none, some, List, [], ◌∷◌, ◌++◌, Text, codes, ◌==◌, has_prefix,
  split, get_last?, length, if◌then◌else◌,
}
use kompose.Kobject.{FileReference}

-- The item path, the mount path and the sub path of a secret.
pub record SecretPaths : Type 0 where
  pub secret_item_path : Text
  pub secret_mount_path : Text
  pub secret_sub_path : Text

abbrev pub run_secrets : Text
run_secrets = codes "/run/secrets/"

-- splitPath[len(splitPath)-1]; strings.Split never gives an empty list for a separator.
unfoldable pub last_part : Text → Text
last_part path = elim (get_last? (split path b'/')) [ none ↦ [] | some p ↦ p ]

unfoldable pub target_of : FileReference → Text
target_of secret = if secret.target == [] then secret.source else secret.target

unfoldable pub get_secret_paths : FileReference → SecretPaths
unfolding last_part target_of has_prefix
get_secret_paths secret = record {
  secret_item_path = last_part (target_of secret);
  secret_mount_path =
      if has_prefix secret.target (codes "/")
      then target_of secret
      else run_secrets ++ target_of secret;
  secret_sub_path = last_part (target_of secret);
}

-- strings.TrimSuffix(s, p)
unfoldable pub trim_suffix : Text → Text → Text
trim_suffix [] p = []
trim_suffix (c ∷ s) p = let rest = trim_suffix s p in if c ∷ s == p then [] else c ∷ rest

-- The directory that the long syntax names.
unfoldable pub legacy_directory : Text → FileReference → Text
unfolding trim_suffix
legacy_directory last secret =
    if last == secret.target then secret.source else trim_suffix secret.target (b'/' ∷ last)

unfoldable pub get_secret_paths_legacy : FileReference → SecretPaths
unfolding last_part legacy_directory has_prefix
get_secret_paths_legacy secret =
    if secret.target == []
    then record {
      secret_item_path = secret.source;
      secret_mount_path = run_secrets ++ secret.source;
      secret_sub_path = secret.source;
    }
    else record {
      secret_item_path = last_part secret.target;
      secret_mount_path =
          if has_prefix secret.target (codes "/")
          then legacy_directory (last_part secret.target) secret
          else run_secrets ++ legacy_directory (last_part secret.target) secret;
      secret_sub_path = last_part secret.target;
    }

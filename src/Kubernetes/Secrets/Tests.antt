-- ===== src/Kubernetes/Secrets/Tests.antt =====
-- A secret with a target of two levels.
use kompose.Base.{◌≡◌, refl, none, [], codes, split, has_prefix, ◌==◌}
use kompose.Kobject.{FileReference}
use kompose.Kubernetes.Secrets.{get_secret_paths, get_secret_paths_legacy}

abbrev key : FileReference
key = record { source = codes "key"; target = codes "tls/key.pem"; uid = []; gid = []; mode = none }

paths : (get_secret_paths key).secret_mount_path ≡ codes "/run/secrets/tls/key.pem"
unfolding get_secret_paths has_prefix ◌==◌ split
paths = refl

legacy_paths : (get_secret_paths_legacy key).secret_mount_path ≡ codes "/run/secrets/tls"
unfolding get_secret_paths_legacy has_prefix split ◌==◌
legacy_paths = refl

-- ===== src/Kubernetes/Formats/Tests.antt =====
-- The names of env files.
use kompose.Base.{◌≡◌, inl, refl, codes, All, trim, contains, replace}
use kompose.Base.Outcome.{ok}
use kompose.Kubernetes.Formats.{is_alphanumeric, format_env_name, format_file_name}
use kompose.Kubernetes.Formats.Safe.{IsNameByte}

local_env : format_env_name (codes "./web/.env") (codes "web") ≡ ok (codes "web--env")
unfolding format_env_name trim
local_env = refl

file : format_file_name (codes "a/b_c") ≡ codes "b-c"
unfolding format_file_name replace contains
file = refl

web-All : All IsNameByte (codes "web")
unfolding is_alphanumeric
web-All = (inl refl, (inl refl, (inl refl, tt)))

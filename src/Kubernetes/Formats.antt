-- ===== src/Kubernetes/Formats.antt =====
-- The names that pkg/transformer/kubernetes/k8sutils.go makes for files, containers and resources.
pub mod Safe
mod Tests
use Prim.Native.Nat.{zero, suc}
use kompose.Base.{
  ℕ, Bool, true, false, ◌&&◌, ◌||◌, List, [], ◌∷◌, ◌++◌, map, Text, contains, replace, lower, trim,
  trim_right, ◌==◌, leb, nat_eq, length, ltb, if◌then◌else◌,
}
use kompose.Base.Outcome.{Outcome, ok, panic}
use kompose.Kobject.{ServiceConfig}

-- a-z, A-Z or 0-9
unfoldable pub is_alphanumeric : ℕ → Bool
is_alphanumeric c = leb b'a' c && leb c b'z' || leb b'A' c && leb c b'Z' || leb b'0' c && leb c b'9'

-- the cutset "./"
unfoldable pub is_dot_slash : ℕ → Bool
is_dot_slash c = nat_eq c b'.' || nat_eq c b'/'

-- s[0:n], where s has n bytes or more
unfoldable pub take : ℕ → Text → Text
take zero s = []
take (suc n) [] = []
take (suc n) (c ∷ s) = c ∷ take n s

-- `envName[0]` panics on the empty text.
unfoldable pub get_usable_name_env_file : Text → Text → Outcome Text
unfolding take
get_usable_name_env_file [] service_name = panic
get_usable_name_env_file (c ∷ s) service_name =
    let env_name = if nat_eq c b'-' then service_name ++ c ∷ s else c ∷ s in
    if ltb 63 (length env_name) then ok (take 63 env_name) else ok env_name

unfoldable pub format_env_name : Text → Text → Outcome Text
unfolding get_usable_name_env_file is_alphanumeric is_dot_slash
format_env_name name service_name =
    get_usable_name_env_file
      (map (λ c. if is_alphanumeric c then c else b'-') (trim is_dot_slash name)) service_name

-- What path.Split gives for the file: the text behind the last slash.
unfoldable pub file_of : Text → Text
file_of [] = []
file_of (c ∷ s) =
    let deeper = file_of s in if contains b'/' s then deeper else if nat_eq c b'/' then s else c ∷ s

unfoldable pub format_file_name : Text → Text
unfolding file_of
format_file_name name = replace b'_' b'-' (file_of name)

unfoldable pub format_container_name : Text → Text
format_container_name name = replace b'_' b'-' name

unfoldable pub get_container_name : ServiceConfig → Text
unfolding format_container_name
get_container_name s =
    format_container_name (if ltb 0 (length s.container_name) then s.container_name else s.name)

unfoldable pub format_resource_name : Text → Text
format_resource_name name = lower (replace b'_' b'-' name)

abbrev is_slash : ℕ → Bool
is_slash c = nat_eq c b'/'

-- filepath.Base
unfoldable pub base_name : Text → Text
unfolding file_of
base_name [] = b'.' ∷ []
base_name (c ∷ s) =
    let path = trim_right is_slash (c ∷ s) in if path == [] then b'/' ∷ [] else file_of path

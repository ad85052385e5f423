-- ===== src/Transformer/Volume.antt =====
-- ParseVolume of pkg/transformer/utils.go: `[name:][host:]container[:access_mode]`.
pub mod RoundTrip
pub mod Failure
pub mod Windows
mod Tests
use kompose.Base.{
  ℕ, Bool, true, false, ◌&&◌, ◌||◌, not, Option, none, some, List, [], ◌∷◌, ◌++◌, Text, codes, ◌==◌,
  contains, split, length, get_last?, drop_last, ltb, nat_eq, if◌then◌else◌,
}
use kompose.Base.Outcome.{Outcome, ok, err, panic, ◌>>=◌}

-- The results (name, host, container, mode).
pub record VolumeSpec : Type 0 where
  pub name : Text
  pub host : Text
  pub container : Text
  pub mode : Text

unfoldable pub is_path : Text → Bool
is_path s = contains b'/' s || s == codes "."

unfoldable pub contain_windows_path : Text → Bool
contain_windows_path s = contains b'\\' s

-- `:z` and `:Z`, which are dropped with a warning
abbrev pub is_label_mode : Text → Bool
is_label_mode s = s == codes "z" || s == codes "Z"

abbrev pub is_access_mode : Text → Bool
is_access_mode s = s == codes "rw" || s == codes "ro"

-- `host = volumeStrings[0]` if there is one string, the empty string otherwise
abbrev pub single : List Text → Text
single [] = []
single (h ∷ []) = h
single (h ∷ k ∷ more) = []

-- From `container = volumeStrings[len(volumeStrings)-1]` on, which panics on the empty slice.
unfoldable pub parse_paths : Text → Text → List Text → Outcome VolumeSpec
parse_paths name mode parts = elim (get_last? parts) [
  | none ↦ panic
  | some container ↦
      let rest = drop_last parts in
      let host = single rest in
      if not (is_path container)
        || (ltb 0 (length host) && not (is_path host))
        || ltb 1 (length rest)
      then err
      else ok (record { name = name; host = host; container = container; mode = mode })
]

-- From the test that anything is left, behind the name.
unfoldable pub parse_mode : Text → List Text → Outcome VolumeSpec
unfolding parse_paths
parse_mode name parts = elim (get_last? parts) [
  | none ↦ err
  | some possible ↦
      if is_label_mode possible
      then parse_paths name [] (drop_last parts)
      else if is_access_mode possible
      then parse_paths name possible (drop_last parts)
      else parse_paths name [] parts
]

unfoldable pub parse_parts : List Text → Outcome VolumeSpec
unfolding parse_mode is_path
parse_parts [] = ok (record { name = []; host = []; container = []; mode = [] })
parse_parts (p ∷ ps) = if is_path p then parse_mode [] (p ∷ ps) else parse_mode p ps

unfoldable pub parse_volume_text : Text → Outcome VolumeSpec
unfolding parse_parts
parse_volume_text volume = parse_parts (split volume b':')

-- The fragments of a Windows volume, read in order: what is in the buffer, and the paths.
unfoldable pub collect_paths : List Text → List Text → List Text → Outcome (List Text × List Text)
collect_paths [] buffer paths = ok (buffer, paths)
collect_paths (f ∷ fs) buffer paths =
    let drive : Outcome (List Text × List Text) = elim (get_last? buffer) [
      | none ↦ err
      | some letter ↦
          if nat_eq (length letter) 1
          then collect_paths fs (drop_last buffer) (paths ++ (letter ++ b':' ∷ f) ∷ [])
          else err
    ] in
    let path = collect_paths fs buffer (paths ++ f ∷ []) in
    let other = collect_paths fs (buffer ++ f ∷ []) paths in
    if contain_windows_path f then drive else if is_path f then path else other

-- `name` and `mode` from what the paths left in the buffer
unfoldable pub name_and_mode : List Text → List Text → Outcome (Text × Text)
name_and_mode parts [] = ok ([], [])
name_and_mode parts (b ∷ []) = elim parts [
  | [] ↦ panic
  | first ∷ more ↦ if first == b then ok (b, []) else elim (get_last? (first ∷ more)) [
    | none ↦ panic
    | some last ↦ ok ([], if last == b then b else [])
  ]
]
name_and_mode parts (b ∷ m ∷ []) = ok (b, m)
name_and_mode parts (b ∷ m ∷ c ∷ more) = err

unfoldable pub host_and_container : Text → Text → List Text → Outcome VolumeSpec
host_and_container name mode (c ∷ []) =
    ok (record { name = name; host = []; container = c; mode = mode })
host_and_container name mode (h ∷ c ∷ []) =
    ok (record { name = name; host = h; container = c; mode = mode })
host_and_container name mode [] = err
host_and_container name mode (h ∷ c ∷ d ∷ more) = err

unfoldable pub parse_windows_parts : List Text → Outcome VolumeSpec
unfolding collect_paths name_and_mode host_and_container
parse_windows_parts parts = do
  (buffer, paths) ← collect_paths parts [] []
  (name, mode) ← name_and_mode parts buffer
  host_and_container name (if is_label_mode mode then [] else mode) paths

unfoldable pub parse_windows_volume : Text → Outcome VolumeSpec
unfolding parse_windows_parts
parse_windows_volume volume = parse_windows_parts (split volume b':')

unfoldable pub parse_volume : Text → Outcome VolumeSpec
unfolding contain_windows_path parse_windows_volume parse_volume_text
parse_volume volume =
    if contain_windows_path volume then parse_windows_volume volume else parse_volume_text volume

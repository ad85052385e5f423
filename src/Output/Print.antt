-- ===== src/Output/Print.antt =====
-- Print of pkg/transformer/utils.go: the text of one object goes to the standard output, to the one
-- file, or to a file of its own.
pub mod Status
pub mod Names
use kompose.Base.{
  Bool, Option, none, some, List, [], ◌∷◌, ◌++◌, Text, codes, has_prefix, if◌then◌else◌,
}
use kompose.Base.Outcome.{Outcome, ok, ◌>>=◌, or_err}
use kompose.Host.{Host}
use kompose.Output.Disk.{Os}

abbrev pub status_line : Text
status_line = codes "status:" ++ 10 ∷ []

-- regexp.MustCompile(`(?s)status:\n.*`).ReplaceAll(data, nil)
unfoldable pub drop_status : Text → Text
unfolding has_prefix
drop_status [] = []
drop_status (c ∷ text) = if has_prefix (c ∷ text) status_line then [] else c ∷ drop_status text

unfoldable pub file_name : Text → Text → Bool → Text
file_name name trailing json =
    name ++ b'-' ∷ trailing ++ (if json then codes ".json" else codes ".yaml")

unfoldable pub print :
    (host : Host) (os : Os)
    → Text
    → Text
    → Text
    → Text
    → Bool
    → Bool
    → Option Text
    → os.State
    → Outcome (Text × os.State)
unfolding drop_status file_name
print host os name path trailing text to_stdout json f s =
    let kept = drop_status text in
    let file = file_name name trailing json in
    if to_stdout then ok ([], os.print (kept ++ 10 ∷ []) s) else elim f [
      | some out ↦ (do written ← or_err (os.append out (kept ++ 10 ∷ []) s); ok (file, written))
      | none ↦ (do
        let place = host.join_path path file
        written ← or_err (os.write_file place kept s)
        ok (place, written))
    ]

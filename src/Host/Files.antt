-- ===== src/Host/Files.antt =====
-- Files and directories, and the test for an empty directory
-- (checkIsEmptyDir of pkg/transformer/kubernetes/k8sutils.go).
use kompose.Base.{Bool, true, false, Option, none, some, Text}

-- What stands at a path: a regular file, something special, a directory with its entries, or a
-- directory that cannot be read.
mutual
  pub data FileTree : Type 0 where
    regular : FileTree
    special : FileTree
    directory : Entries → FileTree
    unreadable : FileTree

  pub data Entries : Type 0 where
    no_entries : Entries
    entry : Text → FileTree → Entries → Entries

-- `none` is an error. What a directory below answers is read for its error alone.
unfoldable mutual
  pub check_is_empty_dir : FileTree → Option Bool
  check_is_empty_dir regular = none
  check_is_empty_dir special = none
  check_is_empty_dir unreadable = none
  check_is_empty_dir (directory files) = check_entries files

  pub check_entries : Entries → Option Bool
  check_entries no_entries = some true
  check_entries (entry name regular files) = some false
  check_entries (entry name special files) = some false
  check_entries (entry name unreadable files) = none
  check_entries (entry name (directory below) files) =
      let inner = check_entries below in
      let rest = check_entries files in elim inner [ none ↦ none | some empty ↦ rest ]

abbrev pub is_dir : FileTree → Bool
is_dir regular = false
is_dir special = false
is_dir unreadable = true
is_dir (directory files) = true

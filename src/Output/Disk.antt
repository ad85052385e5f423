-- ===== src/Output/Disk.antt =====
-- The files that the program writes, behind the functions of package os that it calls. Exists, isDir
-- and CreateOutFile are those of the source.
use kompose.Base.{◌≡◌, Bool, false, Option, none, some, Text, ◌==◌, [], if◌then◌else◌}
use kompose.Base.Outcome.{Outcome, ok, ◌>>=◌, or_err}

-- A call that fails has no state behind it: the program ends.
pub record Os : Type 1 where
  pub State : Type 0
  -- the content of a file
  pub read : Text → State → Option Text
  -- os.Stat finds the path
  pub stat : Text → State → Bool
  -- `none` if os.Open fails, `some none` if Stat of the file does, else whether it is a directory
  pub open_dir : Text → State → Option (Option Bool)
  pub mkdir : Text → State → Option State
  pub mkdir_all : Text → State → Option State
  -- os.Create, and f.WriteString on what it returned
  pub create : Text → State → Option State
  pub append : Text → Text → State → Option State
  -- os.WriteFile
  pub write_file : Text → Text → State → Option State
  -- fmt.Fprintf(os.Stdout, ...)
  pub print : Text → State → State

-- A file holds what os.WriteFile has written to it; paths that are apart, as `Apart` says, do not name
-- one file, and the file of the one keeps its content when the other is written; a new directory
-- changes the content of no file.
pub record IsLawful (os : Os) (Apart : Text → Text → Type 0) : Type 0 where
  pub read-write_file :
      (p t : Text) (s s' : os.State) → os.write_file p t s ≡ some s' → os.read p s' ≡ some t
  pub read-other :
      (p q t : Text) (s s' : os.State)
      → Apart p q
      → os.write_file p t s ≡ some s'
      → os.read q s' ≡ os.read q s
  pub read-mkdir :
      (p q : Text) (s s' : os.State) → os.mkdir p s ≡ some s' → os.read q s' ≡ os.read q s
  pub apart-sym : (p q : Text) → Apart p q → Apart q p

module _ (os : Os) where
  unfoldable pub is_dir : Text → os.State → Outcome Bool
  is_dir name s = elim (os.open_dir name s) [ none ↦ ok false | some found ↦ or_err found ]

  -- The file to write to, if one is named.
  unfoldable pub create_out_file :
      (Text → Text) → Text → os.State → Outcome (Option Text × os.State)
  create_out_file dir_of out s =
      let dir = dir_of out in
      if out == [] then ok (none, s) else (do
        made ← (if os.stat dir s then ok s else or_err (os.mkdir_all dir s))
        created ← or_err (os.create out made)
        ok (some out, created))

-- ===== src/Output/Memory.antt =====
-- A disk that holds a dictionary of files, and on which every call succeeds.
use kompose.Base.{
  ◌≡◌, ◌≢◌, refl, sym, ◌∙◌, inl, inr, none, some, [], ◌++◌, Text, is_some, ◌==◌, ==_iff, ==_refl,
  Bool-cases,
}
use kompose.Base.Dict.{Dict, lookup, insert, lookup-insert}
use kompose.Output.Disk.{Os, IsLawful}

pub record Machine : Type 0 where
  pub files : Dict Text
  pub out : Text

abbrev pub memory : Os
memory = record {
  State = Machine;
  read = λ p s. lookup p s.files;
  stat = λ p s. is_some (lookup p s.files);
  open_dir = λ p s. none;
  mkdir = λ p s. some s;
  mkdir_all = λ p s. some s;
  create = λ p s. some (record s { files = insert p [] s.files });
  append = λ p t s. some (record s {
    files = insert p ((elim (lookup p s.files) [ none ↦ [] | some u ↦ u ]) ++ t) s.files;
  });
  write_file = λ p t s. some (record s { files = insert p t s.files });
  print = λ t s. record s { out = s.out ++ t };
}

written :
    (p t : Text) (s s' : Machine) → memory.write_file p t s ≡ some s' → memory.read p s' ≡ some t
written p t s s' e =
    let same : s' ≡ record s { files = insert p t s.files } = cc in
    rw same (lookup-insert p p t s.files ∙ rw (==_refl p) refl)

kept :
    (p q t : Text) (s s' : Machine)
    → p ≢ q
    → memory.write_file p t s ≡ some s'
    → memory.read q s' ≡ memory.read q s
kept p q t s s' ne e =
    let same : s' ≡ record s { files = insert p t s.files } = cc in
    rw same (
      lookup-insert p q t s.files
      ∙ elim (Bool-cases (p == q)) [ inl h ↦ absurd (ne ((==_iff p q).0 h)) | inr h ↦ rw h refl ])

made :
    (p q : Text) (s s' : Machine) → memory.mkdir p s ≡ some s' → memory.read q s' ≡ memory.read q s
made p q s s' e = let same : s' ≡ s = cc in rw same refl

-- Two texts are two paths.
pub memory-IsLawful : IsLawful memory (λ p q. p ≢ q)
memory-IsLawful = record {
  read-write_file = written;
  read-other = kept;
  read-mkdir = made;
  apart-sym = λ p q ne e. ne (sym e);
}

-- ===== src/Host/Samples.antt =====
-- A machine without files, on which every quantity is one.
use kompose.Base.{true, false, none, some, [], ◌∷◌, ◌++◌, codes}
use kompose.Base.Int.{pos}
use kompose.Base.Outcome.{ok}
use kompose.Host.{Host}

abbrev pub bare_host : Host
bare_host = record {
  args = codes "kompose" ∷ codes "convert" ∷ [];
  version_output = [];
  git_commit = codes "HEAD";
  abs_path = λ p. some p;
  dir_of = λ p. codes ".";
  is_abs = λ p. false;
  join_path = λ a b. a ++ b'/' ∷ b;
  stat = λ p. none;
  read_file = λ p. none;
  read_variables = λ p. none;
  read_with_lookup = λ l p. none;
  is_text = λ t. true;
  encode_to_string = λ t. t;
  is_quantity = λ t. true;
  seconds_of = λ t. none;
  read_env = λ p. ok [];
  visit = λ names. names;
  shell_words = λ c. c ∷ [];
  runs = λ c. true;
  builds = λ s n. true;
  pushes = λ s n o. true;
  to_int = pos;
  to_int32 = pos;
}

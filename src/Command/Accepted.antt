-- ===== src/Command/Accepted.antt =====
-- What the options satisfy once PreRun has passed.
use kompose.Base.{
  ◌≡◌, ◌≢◌, refl, sym, subst, true, inl, inr, List, [], ◌∷◌, Text, codes, ◌==◌, arith, Bool,
  Bool-cases,
}
use kompose.Base.Outcome.{ok, >>=-eq-ok}
use kompose.Kobject.{ConvertOptions}
use kompose.App.{FlagSet, validate_flags, validate_compose_file, default_compose_files}
use kompose.App.Flags.{IsAccepted, validate_flags-IsAccepted}
use kompose.Output.Lists.{get_dir_name, drop_extension}
use kompose.Command.{Flags, options_of, check_options, pre_run}

-- The flags are accepted, there is a compose file, and the place of the output has a name.
pub record IsReady (args : List Text) (f : FlagSet) (opt : ConvertOptions) : Type 0 where
  pub accepted : IsAccepted args f opt
  pub has_file : opt.input_files ≢ []
  pub has_place : (dir : Text) × (get_dir_name opt ≡ ok dir)

place_of :
    (opt : ConvertOptions) → opt.input_files ≢ [] → (dir : Text) × (get_dir_name opt ≡ ok dir)
unfolding get_dir_name
place_of opt h = elim (Bool-cases (opt.out_file == [])) [
  | inl e ↦ elim (Bool-cases opt.create_chart) [
    | inl c ↦ in_chart opt.input_files refl e c
    | inr c ↦ (codes ".", ground arith)
  ]
  | inr e ↦ (opt.out_file, ground arith)
]
  where
    in_chart :
        (files : List Text)
        → files ≡ opt.input_files
        → (opt.out_file == []) ≡ true
        → opt.create_chart ≡ true
        → (dir : Text) × (get_dir_name opt ≡ ok dir)
    in_chart [] named e c = absurd (h (sym named))
    in_chart (f ∷ files) named e c = (drop_extension f, ground arith)

IsAccepted-files :
    (args : List Text) (f : FlagSet) (opt : ConvertOptions) (files : List Text)
    → IsAccepted args f opt
    → IsAccepted args f (record opt { input_files = files })
IsAccepted-files args f opt files a = record {
  provider = a.provider;
  one_output = a.one_output;
  chart = a.chart;
  replicas = a.replicas;
  no_args = a.no_args;
  one_format = a.one_format;
  volumes = a.volumes;
}

pub compose_file_found :
    (exists : Text → Bool) (opt r : ConvertOptions)
    → validate_compose_file exists default_compose_files opt ≡ ok r
    → (r.input_files ≢ []) × (r ≡ record opt { input_files = r.input_files })
unfolding validate_compose_file
compose_file_found exists opt r e = (ground arith, ground arith)

pub passed :
    (exists : Text → Bool) (args : List Text) (f : FlagSet) (v : Flags) (r : ConvertOptions)
    → pre_run exists args f v ≡ ok r
    → check_options exists args f (options_of v f) ≡ ok r
unfolding pre_run
passed exists args f v r e = ground arith

check_options-IsReady :
    (exists : Text → Bool) (args : List Text) (f : FlagSet) (options r : ConvertOptions)
    → check_options exists args f options ≡ ok r
    → IsReady args f r
unfolding check_options
check_options-IsReady exists args f options r e =
    let (opt, checked, rest) = >>=-eq-ok (validate_flags args f options) _ e in
    let (same, accepted) = (validate_flags-IsAccepted args f options opt).0 checked in
    let (named, found) = compose_file_found exists opt r rest in
    record {
      accepted =
          subst (IsAccepted args f) (sym found)
            (IsAccepted-files args f opt r.input_files accepted);
      has_file = named;
      has_place = place_of r named;
    }

-- Options that PreRun makes of the flags and lets pass are accepted for what the flag set says, they
-- name a compose file, and the place of the output can be told, so that Convert reads no first file
-- of an empty list.
pub pre_run-IsReady :
    (exists : Text → Bool) (args : List Text) (f : FlagSet) (v : Flags) (r : ConvertOptions)
    → pre_run exists args f v ≡ ok r
    → IsReady args f r
pre_run-IsReady exists args f v r e =
    check_options-IsReady exists args f (options_of v f) r (passed exists args f v r e)

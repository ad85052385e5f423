-- ===== src/Command/Run/Finished.antt =====
-- What a run of the command that succeeds has done.
use kompose.Base.{
  ◌≢◌, inl, inr, none, some, false, refl, ◌∷◌, codes, In, Bool-cases, ◌≡◌, ◌⊎◌, ==_iff, subst, ap,
  ◌∙◌, arith, Bool, true, Option, List, [], Text, lower,
}
use kompose.Base.Outcome.{Outcome, ok, >>=-eq-ok}
use kompose.Kobject.{ConvertOptions}
use kompose.Kobject.Project.{KomposeObject}
use kompose.Kubernetes.Types.{RuntimeObject}
use kompose.Openshift.Objects.{OpenshiftHost}
use kompose.Output.Disk.{Os}
use kompose.Output.Yaml.{Codec}
use kompose.App.{
  FlagSet, provider_kubernetes, provider_openshift, validate_flags, validate_compose_file,
  find_compose_file, default_compose_files,
}
use kompose.App.Flags.{validate_flags-IsAccepted}
use kompose.App.Convert.Providers.{IsMade, convert-IsMade}
use kompose.Command.{Flags, options_of, check_options, pre_run}
use kompose.Command.Accepted.{IsReady, pre_run-IsReady, passed}
use kompose.Command.Run.{is_supported, with_compose_file, persistent_pre_run, flag_set_of, run}

supported :
    (changed : Bool) (compose_file : Option (List Text)) (given v : Flags)
    → persistent_pre_run changed compose_file given ≡ ok v
    → (is_supported given.global_provider ≡ true)
      × (v ≡ with_compose_file changed compose_file given)
unfolding persistent_pre_run
supported changed compose_file given v e = (ground arith, ground arith)

is_supported_lem :
    (provider : Text)
    → is_supported provider ≡ true
    → (lower provider ≡ codes "kubernetes") ⊎ (lower provider ≡ codes "openshift")
unfolding is_supported
is_supported_lem provider e =
    ground (
      arith,
      ==_iff (lower provider) provider_kubernetes,
      ==_iff (lower provider) provider_openshift,
    )

with_compose_file-provider :
    (changed : Bool) (compose_file : Option (List Text)) (v : Flags)
    → (with_compose_file changed compose_file v).global_provider ≡ v.global_provider
unfolding with_compose_file
with_compose_file-provider changed compose_file v = ground arith

-- The files that were asked for, or a compose file of one of the four names, if none were.
abbrev pub Uses : (Text → Bool) → List Text → List Text → Type 0
Uses exists asked files =
    ((asked ≢ []) × (files ≡ asked))
    ⊎ ((asked ≡ [])
        × (name : Text) × (files ≡ name ∷ [])
        × (exists name ≡ true)
        × In name (
            codes "compose.yaml"
            ∷ codes "compose.yml"
            ∷ codes "docker-compose.yaml"
            ∷ codes "docker-compose.yml"
            ∷ []))

-- What the checks keep: the provider as it is written, and the files.
abbrev Kept : (Text → Bool) → ConvertOptions → ConvertOptions → Type 0
Kept exists options r =
    (r.provider ≡ options.provider) × Uses exists options.input_files r.input_files

find_compose_file-exists :
    (exists : Text → Bool) (names : List Text) (name : Text)
    → find_compose_file exists names ≡ some name
    → (exists name ≡ true) × In name names
unfolding find_compose_file
find_compose_file-exists exists [] name e = absurd (ground arith)
find_compose_file-exists exists (n ∷ names) name e = elim (Bool-cases (exists n)) [
  | inl h ↦ let same : name ≡ n = ground arith in (rw same h, inl same)
  | inr h ↦
      let (found, i) = find_compose_file-exists exists names name (ground arith) in (found, inr i)
]

validate_flags-Kept :
    (args : List Text) (f : FlagSet) (options opt : ConvertOptions)
    → validate_flags args f options ≡ ok opt
    → (opt.provider ≡ options.provider) × (opt.input_files ≡ options.input_files)
validate_flags-Kept args f options opt e =
    elim ((validate_flags-IsAccepted args f options opt).0 e).0 [
      | inl h ↦ (ap (λ o. o.provider) h.1, ap (λ o. o.input_files) h.1)
      | inr h ↦ (ap (λ o. o.provider) h.1, ap (λ o. o.input_files) h.1)
    ]

validate_compose_file-Kept :
    (exists : Text → Bool) (opt r : ConvertOptions)
    → validate_compose_file exists default_compose_files opt ≡ ok r
    → Kept exists opt r
unfolding validate_compose_file
validate_compose_file-Kept exists opt r e = (ground arith, by_files opt.input_files refl)
  where
    by_name :
        (found : Option Text)
        → find_compose_file exists default_compose_files ≡ found
        → opt.input_files ≡ []
        → Uses exists opt.input_files r.input_files
    by_name none named h = absurd (ground arith)
    by_name (some name) named h =
        let (there, i) = find_compose_file-exists exists default_compose_files name named in
        inr (h, name, ground arith, there, i)

    by_files :
        (files : List Text) → opt.input_files ≡ files → Uses exists opt.input_files r.input_files
    by_files [] h = by_name (find_compose_file exists default_compose_files) refl h
    by_files (f ∷ files) h = inl (ground arith, ground arith)

check_options-Kept :
    (exists : Text → Bool) (args : List Text) (f : FlagSet) (options r : ConvertOptions)
    → check_options exists args f options ≡ ok r
    → Kept exists options r
unfolding check_options
check_options-Kept exists args f options r e =
    let (opt, checked, rest) = >>=-eq-ok (validate_flags args f options) _ e in
    let (provider, files) = validate_flags-Kept args f options opt checked in
    let (provider', files') = validate_compose_file-Kept exists opt r rest in
    (provider' ∙ provider, subst (λ fs. Uses exists fs r.input_files) files files')

pre_run-Kept :
    (exists : Text → Bool) (args : List Text) (f : FlagSet) (v : Flags) (r : ConvertOptions)
    → pre_run exists args f v ≡ ok r
    → Kept exists (options_of v f) r
pre_run-Kept exists args f v r e =
    check_options-Kept exists args f (options_of v f) r (passed exists args f v r e)

module _ (host : OpenshiftHost) (rel : Text → Text → Option Text) (os : Os) (codec : Codec)
    (load_file : List Text → List Text → Bool → Outcome KomposeObject) (exists : Text → Bool) where
  -- A supported provider in any case of letters, options that were accepted and hold the provider as
  -- it is written, the files of COMPOSE_FILE where --file is not given, and else those of --file, and
  -- the conversion by the transformer for this text.
  pub record IsFinished (args : List Text) (f : FlagSet) (changed : Bool)
      (compose_file : Option (List Text)) (given : Flags) (s : os.State)
      (objects : List RuntimeObject) (s' : os.State) : Type 0 where
    pub opt : ConvertOptions
    pub known :
        (lower given.global_provider ≡ codes "kubernetes")
        ⊎ (lower given.global_provider ≡ codes "openshift")
    pub ready : IsReady args (flag_set_of f given) opt
    pub as_written : opt.provider ≡ given.global_provider
    pub files :
        ((set : List Text) × (changed ≡ false)
          × (compose_file ≡ some set)
          × Uses exists set opt.input_files)
        ⊎ (((changed ≡ true) ⊎ (compose_file ≡ none))
            × Uses exists given.global_files opt.input_files)
    pub made : IsMade host rel os codec load_file opt s objects s'

  files_of :
      (changed : Bool) (compose_file : Option (List Text)) (given : Flags) (files : List Text)
      → Uses exists (with_compose_file changed compose_file given).global_files files
      → ((set : List Text) × (changed ≡ false) × (compose_file ≡ some set) × Uses exists set files)
        ⊎ (((changed ≡ true) ⊎ (compose_file ≡ none)) × Uses exists given.global_files files)
  unfolding with_compose_file
  files_of changed none given files h = inr (inr refl, h)
  files_of true (some set) given files h = inr (inl refl, h)
  files_of false (some set) given files h = inl (set, refl, refl, h)

  -- A run of the command that succeeds had the provider kubernetes or openshift, up to the case of its
  -- letters, and accepted options, which hold the provider as it is written. Their files are those of
  -- COMPOSE_FILE if it is set and --file is not given, and those of --file else; if there are none,
  -- one of the four default names that exists. The objects are what the transformer of Kubernetes
  -- returned, if the provider is `kubernetes` in small letters, and what that of OpenShift returned
  -- else, and PrintList was called for exactly these.
  pub run-IsFinished :
      (args : List Text) (f : FlagSet) (changed : Bool) (compose_file : Option (List Text))
      (given : Flags) (s s' : os.State) (objects : List RuntimeObject)
      → run host rel os codec load_file exists args f changed compose_file given s
        ≡ ok (objects, s')
      → IsFinished args f changed compose_file given s objects s'
  unfolding run options_of
  run-IsFinished args f changed compose_file given s s' objects e =
      let (v, first, rest₁) = >>=-eq-ok (persistent_pre_run changed compose_file given) _ e in
      let (opt, second, rest₂) = >>=-eq-ok (pre_run exists args (flag_set_of f v) v) _ rest₁ in
      let (known, same) = supported changed compose_file given v first in
      let kept : v.global_provider ≡ given.global_provider =
        ap (λ w. w.global_provider) same ∙ with_compose_file-provider changed compose_file given in
      let (provider, files) = pre_run-Kept exists args (flag_set_of f v) v opt second in
      record {
        opt = opt;
        known = is_supported_lem given.global_provider known;
        ready =
            subst (λ p. IsReady args (record f { provider = p }) opt) kept
              (pre_run-IsReady exists args (flag_set_of f v) v opt second);
        as_written = provider ∙ kept;
        files =
            files_of changed compose_file given opt.input_files
              (subst (λ w. Uses exists w.global_files opt.input_files) same files);
        made = convert-IsMade host rel os codec load_file opt s s' objects rest₂;
      }

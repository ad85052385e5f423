-- ===== src/Client/Convert/SameAsCommand.antt =====
-- The library and the command do the same.
use kompose.Base.{
  inr, ◌≡◌, ◌≢◌, ◌⊎◌, refl, sym, ap, ◌∙◌, arith, Bool, true, false, ◌&&◌, Option, none, List, [],
  Text, codes, lower, ◌==◌, ==_iff, if◌then◌else◌,
}
use kompose.Base.Outcome.{Outcome, ok, err, ◌>>=◌}
use kompose.Kobject.{ConvertOptions}
use kompose.Kobject.Project.{KomposeObject}
use kompose.Openshift.Objects.{OpenshiftHost}
use kompose.Output.Disk.{Os}
use kompose.Output.Yaml.{Codec}
use kompose.App.{provider_kubernetes, validate_compose_file, default_compose_files, validate_flags}
use kompose.App.Flags.{IsAccepted, validate_flags-IsAccepted}
use kompose.Client.{Options, prepare}
use kompose.Client.Convert.{convert}
use kompose.Client.Convert.Said.{flags_of, changes_of, as_command, Said, prepare-Said}
use kompose.Kubernetes.Types.{RuntimeObject}
use kompose.App.Convert
use kompose.Command.{Flags, options_of, check_options, pre_run}
use kompose.Command.Run.{is_supported, persistent_pre_run, with_compose_file, run}

-- What the command asks for beyond its flags, so that it changes nothing of the options.
pub record IsUnchanged (opt : ConvertOptions) : Type 0 where
  pub controller : lower opt.controller ≡ opt.controller
  pub mode : (opt.service_group_mode ≢ []) ⊎ (opt.multiple_container_mode ≡ false)
  pub out_file : opt.out_file ≢ codes "-"
  pub accepted : IsAccepted [] (changes_of opt) opt

as_command-same : (opt : ConvertOptions) → IsUnchanged opt → as_command opt ≡ opt
as_command-same opt h =
    let mode : (if opt.service_group_mode == [] && opt.multiple_container_mode
          then codes "label"
          else opt.service_group_mode)
        ≡ opt.service_group_mode =
      let m = h.mode in ground (arith, ==_iff opt.service_group_mode []) in
    ap (λ c. record (as_command opt) { controller = c }) h.controller
    ∙ ap (λ m. record opt { service_group_mode = m }) mode

validate_compose_file-same :
    (exists : Text → Bool) (opt : ConvertOptions)
    → opt.input_files ≢ []
    → validate_compose_file exists default_compose_files opt ≡ ok opt
unfolding validate_compose_file
validate_compose_file-same exists opt h = ground arith

check_options-same :
    (exists : Text → Bool) (opt : ConvertOptions)
    → IsUnchanged opt
    → opt.input_files ≢ []
    → check_options exists [] (changes_of opt) opt ≡ ok opt
unfolding check_options
check_options-same exists opt h named =
    let checked : validate_flags [] (changes_of opt) opt ≡ ok opt =
      (validate_flags-IsAccepted [] (changes_of opt) opt opt).1
        (inr (h.out_file, refl), h.accepted) in
    ap (λ call. call >>= validate_compose_file exists default_compose_files) checked
    ∙ validate_compose_file-same exists opt named

no_up_build {ℓ} :
    {A : Type ℓ} (b : Bool) (call : Outcome A) → (if b && false then err else call) ≡ call
no_up_build true call = refl
no_up_build false call = refl

pre_run-same :
    (exists : Text → Bool) (opt : ConvertOptions)
    → Said opt
    → IsUnchanged opt
    → opt.input_files ≢ []
    → pre_run exists [] (changes_of opt) (flags_of opt) ≡ ok opt
unfolding pre_run ◌==◌
pre_run-same exists opt said h named =
    let options : options_of (flags_of opt) (changes_of opt) ≡ opt =
      said.0 ∙ as_command-same opt h in
    let checked =
      ap (check_options exists [] (changes_of opt)) options
      ∙ check_options-same exists opt h named in
    no_up_build (opt.provider == provider_kubernetes) _ ∙ checked

persistent_pre_run-same :
    (v : Flags) → is_supported v.global_provider ≡ true → persistent_pre_run true none v ≡ ok v
unfolding persistent_pre_run with_compose_file
persistent_pre_run-same v e = ground arith

module _ (host : OpenshiftHost) (rel : Text → Text → Option Text) (os : Os) (codec : Codec)
    (load_file : List Text → List Text → Bool → Outcome KomposeObject) (exists : Text → Bool) where
  -- Where the checks of the library pass, and the command has nothing to change or to refuse in the
  -- options that they give, the command with the flags that say these options and the library do the
  -- same: they end alike, with the same objects and the same files.
  pub convert-run :
      (o : Options) (opt : ConvertOptions) (s : os.State)
      → prepare exists default_compose_files o ≡ ok opt
      → IsUnchanged opt
      → convert host rel os codec load_file exists o s
        ≡ run host rel os codec load_file exists [] (changes_of opt) true none (flags_of opt) s
  unfolding convert run
  convert-run o opt s e h =
      let (said, named) = prepare-Said exists o opt e in
      let next : ConvertOptions → Outcome (List RuntimeObject × os.State) =
        λ q. Convert.convert host rel os codec load_file q s in
      let first = persistent_pre_run-same (flags_of opt) said.1 in
      let second = pre_run-same exists opt said h named in
      ap (λ call. call >>= next) e
      ∙ sym (
          ap
            (λ call. call >>= λ v.
              pre_run exists [] (record (changes_of opt) { provider = v.global_provider }) v
              >>= next)
            first
          ∙ ap (λ call. call >>= next) second)

-- ===== src/App/Flags.antt =====
-- Which command lines pass.
use kompose.Base.{
  true, false, ◌≡◌, ◌≢◌, ◌↔◌, ◌⊎◌, inl, inr, refl, sym, ap, subst, ◌∙◌, List, [], ◌∷◌, arith, Text,
  codes, ◌==◌, ==_iff, length, ltb, Bool-cases,
}
use kompose.Base.Int.{pos, ◌≤ℤ◌}
use kompose.Base.Outcome.{ok}
use kompose.Kobject.{ConvertOptions}
use kompose.App.{FlagSet, normalize_output, provider_refuses, is_valid_volume, validate_flags}

-- The options as they are read: the file `-` is the standard output.
abbrev pub IsRead : ConvertOptions → ConvertOptions → Type 0
IsRead opt r =
    ((opt.out_file ≡ codes "-") × (r ≡ record opt { to_stdout = true; out_file = [] }))
    ⊎ ((opt.out_file ≢ codes "-") × (r ≡ opt))

-- With OpenShift no chart and no workload of Kubernetes, with Kubernetes no deployment config and
-- no source of a build; nothing is asked of another text.
abbrev pub IsOfProvider : FlagSet → Text → Type 0
IsOfProvider f controller =
    ((f.provider ≡ codes "openshift")
      × (f.chart ≡ false)
      × (f.daemon_set ≡ false)
      × (f.replication_controller ≡ false)
      × (f.deployment ≡ false)
      × (controller ≢ codes "daemonset")
      × (controller ≢ codes "replicationcontroller")
      × (controller ≢ codes "deployment"))
    ⊎ (((f.provider ≡ codes "kubernetes")
          × (f.deployment_config ≡ false)
          × (f.build_repo ≡ false)
          × (f.build_branch ≡ false)
          × (controller ≢ codes "deploymentconfig"))
        ⊎ ((f.provider ≢ codes "openshift") × (f.provider ≢ codes "kubernetes")))

abbrev pub IsVolumeKind : Text → Type 0
IsVolumeKind v =
    (v ≡ codes "emptyDir")
    ⊎ ((v ≡ codes "hostPath") ⊎ ((v ≡ codes "configMap") ⊎ (v ≡ codes "persistentVolumeClaim")))

-- What a command line must satisfy; `opt` are the options as they are read.
pub record IsAccepted (args : List Text) (f : FlagSet) (opt : ConvertOptions) : Type 0 where
  pub provider : IsOfProvider f opt.controller
  pub one_output : (opt.out_file ≡ []) ⊎ (opt.to_stdout ≡ false)
  pub chart : (opt.create_chart ≡ false) ⊎ (opt.to_stdout ≡ false)
  pub replicas : pos 0 ≤ℤ opt.replicas
  pub no_args : args ≡ []
  pub one_format : (opt.generate_json ≡ false) ⊎ (opt.generate_yaml ≡ false)
  pub volumes : IsVolumeKind opt.volumes

normalize_output-IsRead : (opt r : ConvertOptions) → (r ≡ normalize_output opt) ↔ IsRead opt r
unfolding normalize_output
normalize_output-IsRead opt r = elim (Bool-cases (opt.out_file == codes "-")) [
  | inl h ↦
      let same : opt.out_file ≡ codes "-" = (==_iff opt.out_file (codes "-")).0 h in
      rw h (λ e. inl (same, e), λ d. elim d [ inl a ↦ a.1 | inr a ↦ absurd (a.0 same) ])
  | inr h ↦
      let other : opt.out_file ≢ codes "-" = ground (arith, ==_iff opt.out_file (codes "-")) in
      rw h (λ e. inr (other, e), λ d. elim d [ inl a ↦ absurd (other a.0) | inr a ↦ a.1 ])
]

provider_refuses-IsOfProvider :
    (f : FlagSet) (controller : Text)
    → (provider_refuses f controller ≡ false) ↔ IsOfProvider f controller
unfolding provider_refuses
provider_refuses-IsOfProvider f controller = ground (
  arith,
  ==_iff f.provider (codes "openshift"),
  ==_iff f.provider (codes "kubernetes"),
  ==_iff controller (codes "daemonset"),
  ==_iff controller (codes "replicationcontroller"),
  ==_iff controller (codes "deployment"),
  ==_iff controller (codes "deploymentconfig"),
)

is_valid_volume-IsVolumeKind : (v : Text) → (is_valid_volume v ≡ true) ↔ IsVolumeKind v
unfolding is_valid_volume
is_valid_volume-IsVolumeKind v = ground (
  arith,
  ==_iff (codes "emptyDir") v,
  ==_iff (codes "hostPath") v,
  ==_iff (codes "configMap") v,
  ==_iff (codes "persistentVolumeClaim") v,
)

-- The same in terms of the tests.
record Passes (args : List Text) (f : FlagSet) (opt : ConvertOptions) : Type 0 where
  provider : provider_refuses f opt.controller ≡ false
  one_output : (opt.out_file ≡ []) ⊎ (opt.to_stdout ≡ false)
  chart : (opt.create_chart ≡ false) ⊎ (opt.to_stdout ≡ false)
  replicas : pos 0 ≤ℤ opt.replicas
  no_args : args ≡ []
  one_format : (opt.generate_json ≡ false) ⊎ (opt.generate_yaml ≡ false)
  volumes : is_valid_volume opt.volumes ≡ true

Passes-IsAccepted :
    (args : List Text) (f : FlagSet) (opt : ConvertOptions)
    → Passes args f opt ↔ IsAccepted args f opt
Passes-IsAccepted args f opt = (
  λ p. record {
    provider = (provider_refuses-IsOfProvider f opt.controller).0 p.provider;
    one_output = p.one_output;
    chart = p.chart;
    replicas = p.replicas;
    no_args = p.no_args;
    one_format = p.one_format;
    volumes = (is_valid_volume-IsVolumeKind opt.volumes).0 p.volumes;
  },
  λ p. record {
    provider = (provider_refuses-IsOfProvider f opt.controller).1 p.provider;
    one_output = p.one_output;
    chart = p.chart;
    replicas = p.replicas;
    no_args = p.no_args;
    one_format = p.one_format;
    volumes = (is_valid_volume-IsVolumeKind opt.volumes).1 p.volumes;
  },
)

nonempty : {A : Type 0} (xs : List A) → (ltb 0 (length xs) ≡ false) ↔ (xs ≡ [])
nonempty [] = (λ _. refl, λ _. refl)
nonempty (x ∷ xs) = (λ h. ground arith, λ h. cc)

module _ (args : List Text) (f : FlagSet) (opt r : ConvertOptions) where
  accepted : validate_flags args f opt ≡ ok r → r ≡ normalize_output opt
  unfolding validate_flags
  accepted h = ground arith

  validate_flags-Passes : validate_flags args f opt ≡ ok r → Passes args f (normalize_output opt)
  unfolding validate_flags
  validate_flags-Passes h = ground (arith, nonempty (normalize_output opt).out_file, nonempty args)

all_accepted :
    (args : List Text) (f : FlagSet) (opt : ConvertOptions)
    → Passes args f (normalize_output opt)
    → validate_flags args f opt ≡ ok (normalize_output opt)
unfolding validate_flags
all_accepted args f opt h = ground (arith, nonempty (normalize_output opt).out_file, nonempty args)

-- The command line passes, with the options r, exactly if r are the options with the file `-` read as
-- the standard output, and names with the provider openshift no chart, daemon set, replication
-- controller or deployment, and with kubernetes no deployment config, build repository or branch (by
-- flag or, for the workloads, by controller); at most one output and one format, no chart on the
-- standard output, no negative replicas, no arguments, and one of the four kinds of volume.
pub validate_flags-IsAccepted :
    (args : List Text) (f : FlagSet) (opt r : ConvertOptions)
    → (validate_flags args f opt ≡ ok r) ↔ (IsRead opt r × IsAccepted args f r)
validate_flags-IsAccepted args f opt r = (
  λ h.
      let same = accepted args f opt r h in
      (
        (normalize_output-IsRead opt r).0 same,
        (Passes-IsAccepted args f r).0
            (subst (Passes args f) (sym same) (validate_flags-Passes args f opt r h)),
      ),
  λ h.
      let same = (normalize_output-IsRead opt r).1 h.0 in
      all_accepted args f opt (subst (Passes args f) same ((Passes-IsAccepted args f r).1 h.1))
      ∙ ap ok (sym same),
)

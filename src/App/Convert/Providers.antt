-- ===== src/App/Convert/Providers.antt =====
-- Which transformer a conversion uses: the one of Kubernetes for the provider `kubernetes`, written
-- exactly so, and the one of OpenShift for every other text.
use kompose.Base.{
  ◌≡◌, ◌≢◌, sym, ap, subst, ◌∙◌, Option, List, Text, arith, Bool-cases, inl, inr, ==_iff, ◌==◌,
  Bool,
}
use kompose.Base.Outcome.{Outcome, ok, >>=-eq-ok}
use kompose.Kobject.{ConvertOptions}
use kompose.Kobject.Project.{KomposeObject}
use kompose.Kubernetes.Types.{RuntimeObject}
use kompose.Openshift.Objects.{OpenshiftHost}
use kompose.Openshift.Transform.{transform_openshift}
use kompose.Output.Disk.{Os}
use kompose.Output.Yaml.{Codec}
use kompose.Output.Lists.{print_list}
use kompose.App.{provider_kubernetes, validate_controllers, get_transformer}
use kompose.App.Convert.{load_project, transform_by, convert}
use kompose.App.Convert.Refined.{IsConverted, convert-IsConverted}

module _ (host : OpenshiftHost) (rel : Text → Text → Option Text) (os : Os) (codec : Codec)
    (load_file : List Text → List Text → Bool → Outcome KomposeObject) where
  -- A conversion by the transformer of OpenShift.
  pub record IsForOpenshift (options : ConvertOptions) (s : os.State) (objects : List RuntimeObject)
      (s' : os.State) : Type 0 where
    pub opt : ConvertOptions
    pub project : KomposeObject
    pub accepted : validate_controllers options ≡ ok opt
    pub loaded : load_project host rel load_file opt ≡ ok project
    pub made : transform_openshift host project opt ≡ ok objects
    pub printed : print_list host.host os codec objects opt s ≡ ok s'

  pub data IsMade (options : ConvertOptions) (s : os.State) (objects : List RuntimeObject)
      (s' : os.State) : Type 0 where
    for_kubernetes :
        options.provider ≡ provider_kubernetes
        → IsConverted host rel os codec load_file options s objects s'
        → IsMade options s objects s'
    for_openshift :
        options.provider ≢ provider_kubernetes
        → IsForOpenshift options s objects s'
        → IsMade options s objects s'

  provider_same :
      (options opt : ConvertOptions)
      → validate_controllers options ≡ ok opt
      → opt.provider ≡ options.provider
  unfolding validate_controllers
  provider_same options opt e = ground arith

  by_openshift :
      (opt : ConvertOptions) (project : KomposeObject)
      → opt.provider ≢ provider_kubernetes
      → transform_by host rel (get_transformer opt) project opt
        ≡ transform_openshift host project opt
  unfolding transform_by get_transformer
  by_openshift opt project p = ground (arith, ==_iff opt.provider provider_kubernetes)

  convert-IsForOpenshift :
      (options : ConvertOptions) (s s' : os.State) (objects : List RuntimeObject)
      → options.provider ≢ provider_kubernetes
      → convert host rel os codec load_file options s ≡ ok (objects, s')
      → IsForOpenshift options s objects s'
  unfolding convert
  convert-IsForOpenshift options s s' objects p e =
      let (opt, accepted, rest₁) = >>=-eq-ok (validate_controllers options) _ e in
      let (project, loaded, rest₂) = >>=-eq-ok (load_project host rel load_file opt) _ rest₁ in
      let (objs, made, rest₃) =
        >>=-eq-ok (transform_by host rel (get_transformer opt) project opt) _ rest₂ in
      let (printed, put, rest₄) = >>=-eq-ok (print_list host.host os codec objs opt s) _ rest₃ in
      let same : objs ≡ objects = cc in
      let last : printed ≡ s' = cc in
      let other : opt.provider ≢ provider_kubernetes =
        λ k. p (sym (provider_same options opt accepted) ∙ k) in
      record {
        opt = opt;
        project = project;
        accepted = accepted;
        loaded = loaded;
        made = sym (by_openshift opt project other) ∙ made ∙ ap ok same;
        printed =
            subst (λ o. print_list host.host os codec o opt s ≡ ok s') same (put ∙ ap ok last);
      }

  pub convert-IsMade :
      (options : ConvertOptions) (s s' : os.State) (objects : List RuntimeObject)
      → convert host rel os codec load_file options s ≡ ok (objects, s')
      → IsMade options s objects s'
  convert-IsMade options s s' objects e =
      elim (Bool-cases (options.provider == provider_kubernetes)) [
        | inl k ↦
            (let p : options.provider ≡ provider_kubernetes =
                (==_iff options.provider provider_kubernetes).0 k in
              for_kubernetes p
                (convert-IsConverted host rel os codec load_file options s s' objects p e))
        | inr k ↦
            (let p : options.provider ≢ provider_kubernetes =
                ground (arith, ==_iff options.provider provider_kubernetes) in
              for_openshift p (convert-IsForOpenshift options s s' objects p e))
      ]

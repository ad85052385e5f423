-- ===== src/App/Convert/Refined.antt =====
-- The steps of a conversion for the provider kubernetes.
use kompose.Base.{◌≡◌, sym, ap, subst, ◌∙◌, Bool, Option, List, Text, arith, ==_iff}
use kompose.Base.Outcome.{Outcome, ok, >>=-eq-ok}
use kompose.Kobject.{ConvertOptions}
use kompose.Kobject.Project.{KomposeObject}
use kompose.Kubernetes.Transform.{transform}
use kompose.Kubernetes.Types.{RuntimeObject}
use kompose.Openshift.Objects.{OpenshiftHost}
use kompose.Output.Disk.{Os}
use kompose.Output.Yaml.{Codec}
use kompose.Output.Lists.{print_list}
use kompose.App.{provider_kubernetes, validate_controllers, get_transformer}
use kompose.App.Controllers.{IsChosen, validate_controllers-IsChosen}
use kompose.App.Convert.{load_project, transform_by, convert}

module _ (host : OpenshiftHost) (rel : Text → Text → Option Text) (os : Os) (codec : Codec)
    (load_file : List Text → List Text → Bool → Outcome KomposeObject) where
  -- What a conversion went through: accepted options, a loaded project, its objects as Transform
  -- returns them, and a call of PrintList for these.
  pub record IsConverted (options : ConvertOptions) (s : os.State) (objects : List RuntimeObject)
      (s' : os.State) : Type 0 where
    pub opt : ConvertOptions
    pub project : KomposeObject
    pub accepted : validate_controllers options ≡ ok opt
    pub chosen : IsChosen opt
    pub loaded : load_project host rel load_file opt ≡ ok project
    pub made : transform host.host project opt ≡ ok objects
    pub printed : print_list host.host os codec objects opt s ≡ ok s'

  provider_kept :
      (options opt : ConvertOptions)
      → options.provider ≡ provider_kubernetes
      → validate_controllers options ≡ ok opt
      → opt.provider ≡ provider_kubernetes
  unfolding validate_controllers
  provider_kept options opt p e = ground (arith, ==_iff options.provider provider_kubernetes)

  by_kubernetes :
      (opt : ConvertOptions) (project : KomposeObject)
      → opt.provider ≡ provider_kubernetes
      → transform_by host rel (get_transformer opt) project opt ≡ transform host.host project opt
  unfolding transform_by get_transformer
  by_kubernetes opt project p = ground (arith, ==_iff opt.provider provider_kubernetes)

  pub convert-IsConverted :
      (options : ConvertOptions) (s s' : os.State) (objects : List RuntimeObject)
      → options.provider ≡ provider_kubernetes
      → convert host rel os codec load_file options s ≡ ok (objects, s')
      → IsConverted options s objects s'
  unfolding convert
  convert-IsConverted options s s' objects p e =
      let (opt, accepted, rest₁) = >>=-eq-ok (validate_controllers options) _ e in
      let (project, loaded, rest₂) = >>=-eq-ok (load_project host rel load_file opt) _ rest₁ in
      let (objs, made, rest₃) =
        >>=-eq-ok (transform_by host rel (get_transformer opt) project opt) _ rest₂ in
      let (printed, put, rest₄) = >>=-eq-ok (print_list host.host os codec objs opt s) _ rest₃ in
      let kept = provider_kept options opt p accepted in
      let same : objs ≡ objects = cc in
      let last : printed ≡ s' = cc in
      record {
        opt = opt;
        project = project;
        accepted = accepted;
        chosen = (validate_controllers-IsChosen options opt p accepted).0;
        loaded = loaded;
        made = sym (by_kubernetes opt project kept) ∙ made ∙ ap ok same;
        printed =
            subst (λ o. print_list host.host os codec o opt s ≡ ok s') same (put ∙ ap ok last);
      }

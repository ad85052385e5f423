-- ===== src/Output/Lists/Written.antt =====
-- What stands in the files of PrintList.
use kompose.Base.{
  ◌≡◌, sym, ap, subst, ◌∙◌, Bool, true, false, ◌||◌, inl, inr, Option, none, some, List, [], ◌∷◌,
  map, Text, arith, ◌==◌, lower, All, if◌then◌else◌, Bool-cases, Option-cases,
}
use kompose.Base.Outcome.{Outcome, ok, err, panic, ◌>>=◌, or_err, >>=-eq-ok}
use kompose.Host.{Host}
use kompose.Kobject.{ConvertOptions}
use kompose.Kubernetes.Types.{RuntimeObject}
use kompose.Output.Disk.{Os, IsLawful, is_dir}
use kompose.Output.Yaml.{Codec, marshal}
use kompose.Output.Print.{drop_status, file_name, print}
use kompose.Output.Helm.{generate_helm, make_chart_dirs, readme, readme_of, chart_of, manifest_of}
use kompose.Output.Lists.{
  print_each, print_objects, print_list, final_dir_name, get_dir_name, make_out_dir, open_out,
}

or_err-ok {ℓ} : {A : Type ℓ} (o : Option A) (a : A) → or_err o ≡ ok a → o ≡ some a
or_err-ok none a e = cc
or_err-ok (some b) a e = cc

-- The file of an object.
abbrev pub place_of : Host → Text → Bool → RuntimeObject → Text
place_of host dir json o = host.join_path dir (file_name o.meta.name (lower o.kind) json)

-- No two of the paths name one file.
abbrev pub AllApart : (Text → Text → Type 0) → List Text → Type 0
AllApart Apart [] = Unit
AllApart Apart (p ∷ ps) = All (Apart p) ps × AllApart Apart ps

module _ (host : Host) (os : Os) (codec : Codec) where
  -- A file of its own, in the absence of a common one.
  print-write_file :
      (name dir kind text : Text) (json : Bool) (s : os.State) (printed : Text × os.State)
      → print host os name dir kind text false json none s ≡ ok printed
      → os.write_file (host.join_path dir (file_name name kind json)) (drop_status text) s
        ≡ some printed.1
  unfolding print
  print-write_file name dir kind text json s printed e =
      let (written, made, last) =
        >>=-eq-ok
          (or_err
            (os.write_file (host.join_path dir (file_name name kind json)) (drop_status text) s))
          _ e in
      or_err-ok _ _ made ∙ ap {A = Outcome (Text × os.State)} {B = Option os.State} state_of last
    where
      state_of : Outcome (Text × os.State) → Option os.State
      state_of (ok (t, s')) = some s'
      state_of err = none
      state_of panic = none

  -- The object's text as it was marshalled, without its status, is in its file.
  abbrev pub IsWritten : Text → ConvertOptions → os.State → RuntimeObject → Type 0
  IsWritten dir opt s o =
      (text : Text) × (marshal codec o opt.generate_json opt.yaml_indent ≡ ok text)
      × (os.read (place_of host dir opt.generate_json o) s ≡ some (drop_status text))

  abbrev pub places : Text → ConvertOptions → List RuntimeObject → List Text
  places dir opt = map (place_of host dir opt.generate_json)

  print_each-step :
      (dir : Text) (opt : ConvertOptions) (o : RuntimeObject) (objects : List RuntimeObject)
      (s s' : os.State)
      → opt.to_stdout ≡ false
      → print_each host os codec dir opt none (o ∷ objects) s ≡ ok s'
      → (text : Text) × (next : os.State) × (marshal codec o opt.generate_json opt.yaml_indent
          ≡ ok text)
        × (os.write_file (place_of host dir opt.generate_json o) (drop_status text) s ≡ some next)
        × (print_each host os codec dir opt none objects next ≡ ok s')
  unfolding print_each
  print_each-step dir opt o objects s s' out e =
      let (text, made, rest) = >>=-eq-ok (marshal codec o opt.generate_json opt.yaml_indent) _ e in
      let (printed, done, last) =
        >>=-eq-ok
          (print host os o.meta.name dir (lower o.kind) text opt.to_stdout opt.generate_json none s)
          _ rest in
      (
        text,
        printed.1,
        made,
        print-write_file o.meta.name dir (lower o.kind) text opt.generate_json s printed (
            subst
              (λ b.
                print host os o.meta.name dir (lower o.kind) text b opt.generate_json none s
                ≡ ok printed)
              out done),
        last,
      )

  print_each-nil :
      (dir : Text) (opt : ConvertOptions) (s s' : os.State)
      → print_each host os codec dir opt none [] s ≡ ok s'
      → s ≡ s'
  unfolding print_each
  print_each-nil dir opt s s' e = cc

  module _ (Apart : Text → Text → Type 0) (laws : IsLawful os Apart) where
    flip : (p : Text) (qs : List Text) → All (Apart p) qs → All (λ q. Apart q p) qs
    flip p [] h = tt
    flip p (q ∷ qs) (apart, h) = (laws.apart-sym p q apart, flip p qs h)

    module _ (dir : Text) (opt : ConvertOptions) (out : opt.to_stdout ≡ false) where
      -- Files that belong to no object stay as they are.
      print_each-read :
          (objects : List RuntimeObject) (s s' : os.State) (q : Text)
          → print_each host os codec dir opt none objects s ≡ ok s'
          → All (λ p. Apart p q) (places dir opt objects)
          → os.read q s' ≡ os.read q s
      print_each-read [] s s' q e h = ap (os.read q) (sym (print_each-nil dir opt s s' e))
      print_each-read (o ∷ objects) s s' q e (ne, h) =
          let (text, next, made, wrote, last) = print_each-step dir opt o objects s s' out e in
          print_each-read objects next s' q last h ∙ laws.read-other _ q _ s next ne wrote

      print_each-IsWritten :
          (objects : List RuntimeObject) (s s' : os.State)
          → print_each host os codec dir opt none objects s ≡ ok s'
          → AllApart Apart (places dir opt objects)
          → All (IsWritten dir opt s') objects
      print_each-IsWritten [] s s' e h = tt
      print_each-IsWritten (o ∷ objects) s s' e (new, h) =
          let (text, next, made, wrote, last) = print_each-step dir opt o objects s s' out e in
          (
            (
              text,
              made,
              print_each-read objects next s' _ last (flip _ (places dir opt objects) new)
                  ∙ laws.read-write_file _ _ s next wrote,
            ),
            print_each-IsWritten objects next s' last h,
          )

    new_dirs-read :
        (dir_name : Text) (s s' : os.State) (q : Text)
        → (or_err (os.mkdir dir_name s) >>= λ made. or_err (os.mkdir (manifest_of dir_name) made))
          ≡ ok s'
        → os.read q s' ≡ os.read q s
    new_dirs-read dir_name s s' q e =
        let (made, first, second) = >>=-eq-ok (or_err (os.mkdir dir_name s)) _ e in
        laws.read-mkdir _ q made s' (or_err-ok _ s' second)
        ∙ laws.read-mkdir _ q s made (or_err-ok _ made first)

    make_chart_dirs-read :
        (dir_name : Text) (s s' : os.State) (q : Text)
        → make_chart_dirs os dir_name s ≡ ok s'
        → os.read q s' ≡ os.read q s
    unfolding make_chart_dirs
    make_chart_dirs-read dir_name s s' q e = elim (Option-cases (os.open_dir dir_name s)) [
      | inl closed ↦ new_dirs-read dir_name s s' q (rw (closed, make_chart_dirs) at e)
      | inr (found, opened) ↦ ap (os.read q) (ok-eq (rw (opened, make_chart_dirs) at e))
    ]
      where
        ok-eq : ok s ≡ ok s' → s' ≡ s
        ok-eq same = cc

    generate_helm-read :
        (dir_name : Text) (s s' : os.State) (q : Text)
        → generate_helm os dir_name s ≡ ok s'
        → Apart (readme_of dir_name) q
        → Apart (chart_of dir_name) q
        → os.read q s' ≡ os.read q s
    unfolding generate_helm
    generate_helm-read dir_name s s' q e apart other =
        let (ready, set_up, rest) = >>=-eq-ok (make_chart_dirs os dir_name s) _ e in
        let (introduced, first, second) =
          >>=-eq-ok (or_err (os.write_file (readme_of dir_name) readme ready)) _ rest in
        laws.read-other _ q _ introduced s' other (or_err-ok _ s' second)
        ∙ laws.read-other _ q _ ready introduced apart (or_err-ok _ introduced first)
        ∙ make_chart_dirs-read dir_name s ready q set_up

    -- What is opened for writing: nothing for a chart, or without --out.
    no_file :
        (opt : ConvertOptions) (dir : Bool) (s : os.State) (out : Option Text × os.State)
        → (opt.create_chart || (opt.out_file == [])) ≡ true
        → open_out host os codec opt dir s ≡ ok out
        → out.0 ≡ none
    unfolding open_out
    no_file opt dir s out h e = ground arith

    print_objects-separate :
        (dir_name : Text) (opt : ConvertOptions) (objects : List RuntimeObject) (s : os.State)
        → opt.to_stdout ≡ false
        → print_objects host os codec dir_name opt none objects s ≡ (
            or_err (os.mkdir_all (final_dir_name dir_name opt) s) >>= λ made.
            print_each host os codec (final_dir_name dir_name opt) opt none objects made)
    unfolding print_objects
    print_objects-separate dir_name opt objects s out = ground arith

    print_objects-IsWritten :
        (dir_name : Text) (opt : ConvertOptions) (objects : List RuntimeObject) (s s' : os.State)
        → opt.to_stdout ≡ false
        → print_objects host os codec dir_name opt none objects s ≡ ok s'
        → AllApart Apart (places (final_dir_name dir_name opt) opt objects)
        → All (IsWritten (final_dir_name dir_name opt) opt s') objects
    print_objects-IsWritten dir_name opt objects s s' out e h =
        let dir = final_dir_name dir_name opt in
        let (made, set_up, rest) =
          >>=-eq-ok (or_err (os.mkdir_all dir s)) _
            (sym (print_objects-separate dir_name opt objects s out) ∙ e) in
        print_each-IsWritten dir opt out objects made s' rest h

    -- The end of PrintList.
    finish-read :
        (opt : ConvertOptions) (dir_name : Text) (s s' : os.State) (q : Text)
        → (if opt.create_chart then generate_helm os dir_name s else ok s) ≡ ok s'
        → Apart (readme_of dir_name) q
        → Apart (chart_of dir_name) q
        → os.read q s' ≡ os.read q s
    finish-read opt dir_name s s' q e apart other = elim (Bool-cases opt.create_chart) [
      | inl c ↦
          generate_helm-read dir_name s s' q
            (subst (λ b. (if b then generate_helm os dir_name s else ok s) ≡ ok s') c e) apart other
      | inr c ↦
          ap (os.read q)
            (same (subst (λ b. (if b then generate_helm os dir_name s else ok s) ≡ ok s') c e))
    ]
      where
        same : ok s ≡ ok s' → s' ≡ s
        same f = cc

    finish-IsWritten :
        (opt : ConvertOptions) (dir_name dir : Text) (s s' : os.State)
        (objects : List RuntimeObject)
        → (if opt.create_chart then generate_helm os dir_name s else ok s) ≡ ok s'
        → All (Apart (readme_of dir_name)) (places dir opt objects)
        → All (Apart (chart_of dir_name)) (places dir opt objects)
        → All (IsWritten dir opt s) objects
        → All (IsWritten dir opt s') objects
    finish-IsWritten opt dir_name dir s s' [] e hr hc h = tt
    finish-IsWritten opt dir_name dir s s' (o ∷ objects) e (r, hr) (c, hc)
          ((text, made, found), h) =
        (
          (text, made, finish-read opt dir_name s s' _ e r c ∙ found),
          finish-IsWritten opt dir_name dir s s' objects e hr hc h,
        )

    -- If PrintList succeeds without --stdout, and without --out or for a chart, and if the paths of
    -- the objects' files (name and kind in small letters, in the directory of the output), of the
    -- chart's readme and of its description name different files each, then in the end the file of
    -- each object holds the object's text, marshalled by the options, without its status.
    pub print_list-IsWritten :
        (objects : List RuntimeObject) (opt : ConvertOptions) (s s' : os.State) (dir_name : Text)
        → opt.to_stdout ≡ false
        → (opt.create_chart || (opt.out_file == [])) ≡ true
        → print_list host os codec objects opt s ≡ ok s'
        → get_dir_name opt ≡ ok dir_name
        → AllApart Apart (
            readme_of dir_name
            ∷ chart_of dir_name
            ∷ places (final_dir_name dir_name opt) opt objects)
        → All (IsWritten (final_dir_name dir_name opt) opt s') objects
    unfolding print_list
    print_list-IsWritten objects opt s s' dir_name out own e named h =
        let (dir, found, rest₁) = >>=-eq-ok (get_dir_name opt) _ e in
        let (ready, set_up, rest₂) = >>=-eq-ok (make_out_dir host os codec opt s) _ rest₁ in
        let (is_one, asked, rest₃) = >>=-eq-ok (is_dir os opt.out_file ready) _ rest₂ in
        let (opened, chosen, rest₄) = >>=-eq-ok (open_out host os codec opt is_one ready) _ rest₃ in
        let (printed, put, rest₅) =
          >>=-eq-ok (print_objects host os codec dir opt opened.0 objects opened.1) _ rest₄ in
        let same : dir ≡ dir_name = cc in
        let ((_, apart), (other, distinct)) =
          subst
            (λ d.
              AllApart Apart (readme_of d ∷ chart_of d ∷ places (final_dir_name d opt) opt objects))
            (sym same) h in
        subst (λ d. All (IsWritten (final_dir_name d opt) opt s') objects) same
          (finish-IsWritten opt dir (final_dir_name dir opt) printed s' objects rest₅ apart other (
            print_objects-IsWritten dir opt objects opened.1 printed out
              (subst (λ f. print_objects host os codec dir opt f objects opened.1 ≡ ok printed)
                (no_file opt is_one ready opened own chosen) put)
              distinct))

-- ===== src/Output/Lists.antt =====
-- PrintList and getDirName of pkg/transformer/kubernetes/k8sutils.go. The names of the written files,
-- which PrintList gathers and drops, are left out.
pub mod Written
use kompose.Base.{
  Bool, true, false, ◌&&◌, ◌||◌, not, Option, none, some, List, [], ◌∷◌, ◌++◌, Text, codes, ◌==◌,
  lower, contains, nat_eq, is_some, if◌then◌else◌,
}
use kompose.Base.Outcome.{Outcome, ok, err, panic, ◌>>=◌, or_err}
use kompose.Host.{Host}
use kompose.Kobject.{ConvertOptions}
use kompose.Kubernetes.Types.{RuntimeObject}
use kompose.Output.Disk.{Os, is_dir, create_out_file}
use kompose.Output.Yaml.{Codec, marshal}
use kompose.Output.Print.{print}
use kompose.Output.Helm.{generate_helm, manifest_of}

-- path[:len(path)-len(filepath.Ext(path))]: the extension begins at the last dot of the last element.
unfoldable pub drop_extension : Text → Text
unfolding contains
drop_extension [] = []
drop_extension (c ∷ text) =
    let rest = c ∷ drop_extension text in
    if nat_eq c b'.' && not (contains b'.' text) && not (contains b'/' text) then [] else rest

-- strings.HasSuffix(s, "/")
abbrev pub ends_in_slash : Text → Bool
ends_in_slash [] = false
ends_in_slash (c ∷ []) = nat_eq c b'/'
ends_in_slash (c ∷ d ∷ s) = ends_in_slash (d ∷ s)

-- opt.InputFiles[0]
abbrev first_file : List Text → Outcome Text
first_file [] = panic
first_file (f ∷ files) = ok f

unfoldable pub get_dir_name : ConvertOptions → Outcome Text
unfolding drop_extension
get_dir_name opt =
    if opt.out_file == []
    then (if opt.create_chart
        then (do f ← first_file opt.input_files; ok (drop_extension f))
        else ok (codes "."))
    else ok opt.out_file

abbrev pub final_dir_name : Text → ConvertOptions → Text
final_dir_name dir_name opt = if opt.create_chart then manifest_of dir_name else dir_name

module _ (host : Host) (os : Os) (codec : Codec) where
  -- All objects to the standard output or to one file.
  unfoldable pub print_single :
      Text → ConvertOptions → Option Text → List RuntimeObject → os.State → Outcome os.State
  unfolding marshal print
  print_single dir_name opt f [] s = ok s
  print_single dir_name opt f (o ∷ objects) s = do
    text ← marshal codec o opt.generate_json opt.yaml_indent
    let unified = codes "---" ++ 10 ∷ text
    printed ← print host os [] dir_name [] unified opt.to_stdout opt.generate_json f s
    print_single dir_name opt f objects printed.1

  -- A file for each object.
  unfoldable pub print_each :
      Text → ConvertOptions → Option Text → List RuntimeObject → os.State → Outcome os.State
  unfolding marshal print
  print_each dir_name opt f [] s = ok s
  print_each dir_name opt f (o ∷ objects) s = do
    text ← marshal codec o opt.generate_json opt.yaml_indent
    printed ←
        print host os o.meta.name dir_name (lower o.kind) text opt.to_stdout opt.generate_json f s
    print_each dir_name opt f objects printed.1

  -- The directory that the option --out names by a slash at its end.
  unfoldable pub make_out_dir : ConvertOptions → os.State → Outcome os.State
  make_out_dir opt s =
      if not (os.stat opt.out_file s) && ends_in_slash opt.out_file
      then or_err (os.mkdir_all opt.out_file s)
      else ok s

  unfoldable pub print_objects :
      Text → ConvertOptions → Option Text → List RuntimeObject → os.State → Outcome os.State
  unfolding print_single print_each
  print_objects dir_name opt f objects s =
      if opt.to_stdout || is_some f
      then (if opt.generate_json then err else print_single dir_name opt f objects s)
      else (do
        let dir = final_dir_name dir_name opt
        made ← or_err (os.mkdir_all dir s)
        print_each dir opt f objects made)

  -- The file that all objects go to, unless --out is a directory or a chart is asked for.
  unfoldable pub open_out : ConvertOptions → Bool → os.State → Outcome (Option Text × os.State)
  unfolding create_out_file
  open_out opt dir s =
      if opt.create_chart || dir
      then ok (none, s)
      else create_out_file os host.dir_of opt.out_file s

  unfoldable pub print_list : List RuntimeObject → ConvertOptions → os.State → Outcome os.State
  unfolding get_dir_name make_out_dir is_dir open_out print_objects generate_helm
  print_list objects opt s = do
    dir_name ← get_dir_name opt
    ready ← make_out_dir opt s
    dir ← is_dir os opt.out_file ready
    out ← open_out opt dir ready
    printed ← print_objects dir_name opt out.0 objects out.1
    if opt.create_chart then generate_helm os dir_name printed else ok printed

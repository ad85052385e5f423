-- ===== src/Output/Helm.antt =====
-- generateHelm of pkg/transformer/kubernetes/k8sutils.go: the readme and Chart.yaml of a chart. The
-- template is filled with the name of the directory.
use kompose.Base.{none, some, [], ◌∷◌, ◌++◌, Text, codes}
use kompose.Base.Outcome.{Outcome, ok, ◌>>=◌, or_err}
use kompose.Output.Disk.{Os}

abbrev pub readme : Text
readme = codes "This chart was created by Kompose" ++ 10 ∷ []

abbrev pub chart : Text → Text
chart name =
    codes "name: "
    ++ name
    ++ 10 ∷ codes "description: A generated Helm Chart for "
    ++ name
    ++ codes " from Skippbox Kompose"
    ++ 10 ∷ codes "version: 0.0.1"
    ++ 10 ∷ codes "apiVersion: v2"
    ++ 10 ∷ codes "keywords:"
    ++ 10 ∷ codes "  - "
    ++ name
    ++ 10 ∷ codes "sources:"
    ++ 10 ∷ codes "home:"
    ++ 10 ∷ []

abbrev pub readme_of : Text → Text
readme_of dir_name = dir_name ++ codes "/README.md"

abbrev pub chart_of : Text → Text
chart_of dir_name = dir_name ++ codes "/Chart.yaml"

abbrev pub manifest_of : Text → Text
manifest_of dir_name = dir_name ++ codes "/templates"

-- The directories of a chart, if that of its name cannot be opened.
unfoldable pub make_chart_dirs : (os : Os) → Text → os.State → Outcome os.State
make_chart_dirs os dir_name s = elim (os.open_dir dir_name s) [
  | some found ↦ ok s
  | none ↦ (do made ← or_err (os.mkdir dir_name s); or_err (os.mkdir (manifest_of dir_name) made))
]

unfoldable pub generate_helm : (os : Os) → Text → os.State → Outcome os.State
unfolding make_chart_dirs
generate_helm os dir_name s = do
  ready ← make_chart_dirs os dir_name s
  introduced ← or_err (os.write_file (readme_of dir_name) readme ready)
  or_err (os.write_file (chart_of dir_name) (chart dir_name) introduced)

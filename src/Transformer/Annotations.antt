-- ===== src/Transformer/Annotations.antt =====
-- The annotations of a service, and namespaces (pkg/transformer/utils.go).
pub mod Kept
mod Tests
use kompose.Base.{
  Bool, true, not, List, [], ◌∷◌, ◌++◌, filter, Text, codes, ◌==◌, join, has_prefix, trim, ◌||◌,
  nat_eq, if◌then◌else◌, ℕ,
}
use kompose.Base.Dict.{Dict, insert}
use kompose.Host.{Host}
use kompose.Kobject.{ServiceConfig}
use kompose.Kubernetes.Types.{RuntimeObject, namespace_only}

abbrev pub kompose_version : Text
kompose_version = codes "1.36.0"

-- the cutset " \n"
unfoldable pub is_blank_or_newline : ℕ → Bool
is_blank_or_newline c = nat_eq c b' ' || nat_eq c 10

-- The version that the program itself knows, where running it gave none.
unfoldable pub version_annotation : Host → Text
unfolding is_blank_or_newline
version_annotation host =
    let printed = trim is_blank_or_newline host.version_output in
    if printed == [] then kompose_version ++ codes " (" ++ host.git_commit ++ codes ")" else printed

unfoldable pub kompose_annotations : Host → Dict Text → Dict Text
unfolding version_annotation insert
kompose_annotations host annotations =
    insert (codes "kompose.version") (version_annotation host)
      (insert (codes "kompose.cmd") (join host.args b' ') annotations)

unfoldable pub config_annotations : Host → ServiceConfig → Dict Text
unfolding kompose_annotations
config_annotations host s =
    let annotations = kompose_annotations host s.annotations in
    if s.with_kompose_annotation
    then annotations
    else filter (λ e. not (has_prefix e.0 (codes "kompose."))) annotations

unfoldable pub create_namespace : Text → RuntimeObject
create_namespace namespace = record {
  api_version = codes "v1";
  kind = codes "Namespace";
  meta = record { name = namespace; namespace = []; labels = []; annotations = [] };
  body = namespace_only;
}

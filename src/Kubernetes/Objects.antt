-- ===== src/Kubernetes/Objects.antt =====
-- SortServicesFirst and RemoveDupObjects of pkg/transformer/kubernetes/k8sutils.go, and
-- AssignNamespaceToObjects of pkg/transformer/utils.go.
pub mod Order
pub mod Firsts
use kompose.Base.{
  Bool, true, false, List, [], ◌∷◌, ◌++◌, map, Text, codes, ◌==◌, any, if◌then◌else◌,
}
use kompose.Kubernetes.Types.{RuntimeObject}

abbrev pub is_service : RuntimeObject → Bool
is_service o = o.kind == codes "Service"

unfoldable pub sort_services_from :
    List RuntimeObject → List RuntimeObject → List RuntimeObject → List RuntimeObject
sort_services_from [] svc others = svc ++ others
sort_services_from (o ∷ objs) svc others =
    if is_service o
    then sort_services_from objs (svc ++ o ∷ []) others
    else sort_services_from objs svc (others ++ o ∷ [])

unfoldable pub sort_services_first : List RuntimeObject → List RuntimeObject
unfolding sort_services_from
sort_services_first objs = sort_services_from objs [] []

-- GroupVersionKind().String() is `group/version, Kind=kind`.
unfoldable pub dup_key : RuntimeObject → Text
dup_key o = (o.api_version ++ codes ", Kind=" ++ o.kind) ++ o.meta.namespace ++ o.meta.name

unfoldable pub remove_dup_from : List RuntimeObject → List Text → List RuntimeObject
unfolding dup_key
remove_dup_from [] exist = []
remove_dup_from (o ∷ objs) exist =
    let skip = remove_dup_from objs exist in
    let keep = o ∷ remove_dup_from objs (dup_key o ∷ exist) in
    if any (λ k. k == dup_key o) exist then skip else keep

unfoldable pub remove_dup_objects : List RuntimeObject → List RuntimeObject
unfolding remove_dup_from
remove_dup_objects objs = remove_dup_from objs []

unfoldable pub assign_namespace_to_objects : Text → List RuntimeObject → List RuntimeObject
assign_namespace_to_objects namespace objs =
    let ns = if namespace == [] then codes "default" else namespace in
    map {A = RuntimeObject} (λ o. record o { meta = record o.meta { namespace = ns } }) objs

-- ===== src/Openshift/Transform/Ordered.antt =====
-- Which objects Transform returns for OpenShift.
use kompose.Base.{◌≡◌, ◌∙◌, List}
use kompose.Base.Outcome.{ok, >>=-eq-ok}
use kompose.Kobject.{ConvertOptions}
use kompose.Kobject.Project.{KomposeObject}
use kompose.Kubernetes.Types.{RuntimeObject}
use kompose.Kubernetes.Transform.{ordered_objects}
use kompose.Kubernetes.Transform.Arranged.{arranged, ordered_objects-arranged}
use kompose.Openshift.Objects.{OpenshiftHost}
use kompose.Openshift.Transform.{openshift_made, transform_openshift}

-- For OpenShift, Transform returns exactly the objects that it made, the services first, of those with
-- the same text of version, kind, namespace and name the first, and in the namespace of the project
-- if it has one.
pub transform_openshift-arranged :
    (o : OpenshiftHost) (project : KomposeObject) (opt : ConvertOptions)
    (result : List RuntimeObject)
    → transform_openshift o project opt ≡ ok result
    → (objs : List RuntimeObject) × (openshift_made o project opt ≡ ok objs)
      × (result ≡ arranged project objs)
unfolding transform_openshift
transform_openshift-arranged o project opt result e =
    let (objs, made, last) = >>=-eq-ok (openshift_made o project opt) _ e in
    let same : result ≡ ordered_objects project objs = cc in
    (objs, made, same ∙ ordered_objects-arranged project objs)

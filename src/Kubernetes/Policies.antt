-- ===== src/Kubernetes/Policies.antt =====
-- Pull and restart policies of a pod, and access modes (pkg/transformer/kubernetes/k8sutils.go).
use kompose.Base.{◌||◌, List, [], ◌∷◌, Text, codes, ◌==◌, if◌then◌else◌}
use kompose.Base.Outcome.{Outcome, ok, err}

unfoldable pub get_image_pull_policy : Text → Text → Outcome Text
get_image_pull_policy name policy =
    if policy == []
    then ok []
    else if policy == codes "Always"
    then ok (codes "Always")
    else if policy == codes "Never"
    then ok (codes "Never")
    else if policy == codes "IfNotPresent"
    then ok (codes "IfNotPresent")
    else err

unfoldable pub get_restart_policy : Text → Text → Outcome Text
get_restart_policy name restart =
    if restart == [] || restart == codes "always" || restart == codes "any"
    then ok (codes "Always")
    else if restart == codes "no" || restart == codes "none"
    then ok (codes "Never")
    else if restart == codes "on-failure"
    then ok (codes "OnFailure")
    else err

unfoldable pub set_volume_access_mode : Text → List Text → List Text
set_volume_access_mode mode old =
    if mode == codes "ro" || mode == codes "rox"
    then codes "ReadOnlyMany" ∷ []
    else if mode == codes "rwx"
    then codes "ReadWriteMany" ∷ []
    else if mode == codes "rwop"
    then codes "ReadWriteOncePod" ∷ []
    else codes "ReadWriteOnce" ∷ []

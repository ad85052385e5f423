-- ===== src/Openshift/Transform/Tests.antt =====
-- A web server with a build, for OpenShift.
use kompose.Base.{◌≡◌, refl, true, some, List, [], ◌∷◌, map, codes, ◌==◌}
use kompose.Base.Outcome.{Outcome, ok, err, panic}
use kompose.Host.Samples.{bare_host}
use kompose.Kobject.{ServiceConfig, ConvertOptions}
use kompose.Kobject.Samples.{bare_service, bare_options}
use kompose.Kobject.Project.{KomposeObject}
use kompose.Kubernetes.Types.{RuntimeObject}
use kompose.Kubernetes.Transform.Arranged.{arranged}
use kompose.Openshift.Objects.{OpenshiftHost, get_image_tag}
use kompose.Openshift.Transform.{openshift_made, transform_openshift}
use kompose.Openshift.Transform.Ordered.{transform_openshift-arranged}

abbrev machine : OpenshiftHost
machine = record {
  host = bare_host;
  has_git_binary = true;
  show_prefix = λ d. some (codes "web/");
  get_url = λ d. some (codes "git@host:app");
  abbrev_ref = λ d. some (codes "main");
  getenv = λ n. [];
  seconds = λ d. d;
  to_int64 = λ d. d;
}

abbrev web : ServiceConfig
web = record bare_service {
  name = codes "web";
  image = codes "nginx";
  build = codes ".";
  service_type = codes "Headless";
}

abbrev project : KomposeObject
project = record {
  service_configs = (codes "web", web) ∷ [];
  loaded_from = codes "compose";
  secrets = [];
  namespace = [];
}

abbrev options : ConvertOptions
options = record bare_options {
  create_deployment_config = true;
  build = codes "build-config";
  input_files = codes "compose.yaml" ∷ [];
}

abbrev objects_of : Outcome (List RuntimeObject) → List RuntimeObject
objects_of (ok objects) = objects
objects_of err = []
objects_of panic = []

abbrev result : List RuntimeObject
result = objects_of (transform_openshift machine project options)

kinds_of_web :
    map (λ o. o.kind) result
    ≡ codes "Service" ∷ codes "DeploymentConfig" ∷ codes "ImageStream" ∷ codes "BuildConfig" ∷ []
unfolding transform_openshift ◌==◌
kinds_of_web = refl

transformed : transform_openshift machine project options ≡ ok result
unfolding transform_openshift ◌==◌
transformed = refl

transform_openshift-arranged_example :
    (objs : List RuntimeObject) × (openshift_made machine project options ≡ ok objs)
    × (result ≡ arranged project objs)
transform_openshift-arranged_example =
    transform_openshift-arranged machine project options result transformed

tag_test : get_image_tag (codes "host:5000/fedora/httpd:1.0") ≡ codes "1.0"
unfolding get_image_tag
tag_test = refl

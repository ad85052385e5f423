-- ===== src/Kubernetes/Transform/Tests.antt =====
-- A project of one web server in the namespace prod.
use kompose.Base.{◌≡◌, refl, true, List, [], ◌∷◌, map, codes, ◌==◌, All, arith, has_prefix}
use kompose.Base.Substrings.{contains_text}
use kompose.Base.Int.{pos}
use kompose.Base.Outcome.{Outcome, ok, err, panic}
use kompose.Host.Samples.{bare_host}
use kompose.Kobject.{ServiceConfig, ConvertOptions}
use kompose.Kobject.Samples.{bare_service, bare_options}
use kompose.Kobject.Project.{KomposeObject}
use kompose.Kubernetes.Types.{RuntimeObject}
use kompose.Kubernetes.NetworkMode.Modes.{moves_of, moved, IsApart}
use kompose.Kubernetes.Transform.{transform, all_objects, grouped}
use kompose.Kubernetes.Transform.Arranged.{arranged, services_of, transform-arranged}
use kompose.Kubernetes.Transform.Finished.{IsServicesFirst, transform-IsServicesFirst}

abbrev web : ServiceConfig
web = record bare_service {
  name = codes "web";
  image = codes "nginx";
  port =
      record { host_port = pos 80; container_port = pos 8080; host_ip = []; protocol = codes "TCP" }
      ∷ [];
}

abbrev project : KomposeObject
project = record {
  service_configs = (codes "web", web) ∷ [];
  loaded_from = codes "compose";
  secrets = [];
  namespace = codes "prod";
}

abbrev options : ConvertOptions
options = record bare_options { create_d = true; replicas = pos 1 }

abbrev objects_of : Outcome (List RuntimeObject) → List RuntimeObject
objects_of (ok objects) = objects
objects_of err = []
objects_of panic = []

abbrev result : List RuntimeObject
result = objects_of (transform bare_host project options)

-- A second service with the network of the first.
abbrev sidecar : ServiceConfig
sidecar = record bare_service {
  name = codes "log";
  image = codes "logger";
  network_mode = codes "service:web";
}

abbrev shared : KomposeObject
shared = record project { service_configs = (codes "web", web) ∷ (codes "log", sidecar) ∷ [] }

abbrev shared_result : List RuntimeObject
shared_result = objects_of (transform bare_host shared options)

shared_transformed : transform bare_host shared options ≡ ok shared_result
unfolding transform ◌==◌
shared_transformed = refl

sidecar-IsApart : All IsApart (moves_of (services_of options shared))
unfolding grouped ◌==◌ contains_text has_prefix
sidecar-IsApart = (ground arith, tt)

kinds_of_web :
    map (λ o. o.kind) result ≡ codes "Service" ∷ codes "Namespace" ∷ codes "Deployment" ∷ []
unfolding transform ◌==◌
kinds_of_web = refl

transformed : transform bare_host project options ≡ ok result
unfolding transform ◌==◌
transformed = refl

transform-arranged_example :
    (objs : List RuntimeObject) × (all_objects bare_host shared options ≡ ok objs)
    × (shared_result ≡ moved (moves_of (services_of options shared)) (arranged shared objs))
transform-arranged_example =
    transform-arranged bare_host shared options shared_result sidecar-IsApart shared_transformed

transform-IsServicesFirst_example : IsServicesFirst result
transform-IsServicesFirst_example =
    transform-IsServicesFirst bare_host project options result transformed

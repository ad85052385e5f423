-- ===== src/Kubernetes/Placement/Tests.antt =====
-- A service that is spread over zones and hosts.
use kompose.Base.{◌≢◌, [], ◌∷◌, codes, arith}
use kompose.Kobject.{ServiceConfig}
use kompose.Kobject.Samples.{bare_service}

abbrev spread : ServiceConfig
spread = record bare_service {
  deploy_mode = codes "replicated";
  placement = record {
    positive_constraints = [];
    negative_constraints = [];
    preferences = codes "zone" ∷ codes "host" ∷ [];
  };
}

not_global : spread.deploy_mode ≢ codes "global"
not_global = ground arith

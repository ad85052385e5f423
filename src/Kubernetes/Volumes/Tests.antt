-- ===== src/Kubernetes/Volumes/Tests.antt =====
-- The volume of a database whose name is not a resource name.
use kompose.Base.{
  ◌≡◌, refl, false, [], ◌∷◌, map, codes, ◌==◌, lower, replace, has_prefix, trim_prefix, strip,
}
use kompose.Base.Outcome.{Outcome, ok, err, panic}
use kompose.Host.Samples.{bare_host}
use kompose.Kobject.{Volumes, ServiceConfig}
use kompose.Kobject.Samples.{bare_service, bare_options}
use kompose.Kubernetes.Types.{persistent_volume_claim}
use kompose.Kubernetes.Volumes.{VolumeConfig, no_volumes, config_volumes}
use kompose.Kubernetes.Volumes.Claimed.{IsMatched, config_volumes-IsMatched}
use kompose.Kubernetes.Volumes.Sources.{replace_first}

abbrev data_volume : Volumes
data_volume = record {
  svc_name = codes "db";
  mount_path = codes ":/data";
  v_from = [];
  volume_name = codes "db_data";
  host = [];
  container = codes "/data";
  mode = [];
  pvc_name = codes "db_data";
  pvc_size = [];
  selector_value = [];
}

abbrev db : ServiceConfig
db = record bare_service { name = codes "db"; volumes = data_volume ∷ [] }

abbrev config_of : Outcome VolumeConfig → VolumeConfig
config_of (ok v) = v
config_of err = no_volumes
config_of panic = no_volumes

abbrev made : VolumeConfig
made = config_of (config_volumes bare_host bare_options (codes "db") db)

made_ok : config_volumes bare_host bare_options (codes "db") db ≡ ok made
unfolding config_volumes ◌==◌
made_ok = refl

config_volumes-IsMatched_example : IsMatched made
config_volumes-IsMatched_example =
    config_volumes-IsMatched bare_host bare_options db (codes "db") made made_ok

-- The volume asks for another claim than the one that is made.
other_claim :
    (map (λ v. v.source) made.volumes ≡ persistent_volume_claim (codes "db_data") false ∷ [])
    × (map (λ c. c.meta.name) made.claims ≡ codes "db-data" ∷ [])
unfolding config_volumes ◌==◌ lower replace
other_claim = (refl, refl)

replace_test : replace_first (codes "claim") (codes "empty") (codes "db-claim0") ≡ codes "db-empty0"
unfolding replace_first has_prefix trim_prefix strip
replace_test = refl

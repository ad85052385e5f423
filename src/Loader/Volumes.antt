-- ===== src/Loader/Volumes.antt =====
-- The volumes of the services (pkg/loader/compose/compose.go).
pub mod Claims
pub mod Depth
mod Tests
use Prim.Native.Nat.{zero, suc}
use kompose.Base.{
  ℕ, ◌+◌, Bool, true, false, ◌||◌, not, Option, none, some, List, [], ◌∷◌, ◌++◌, map, Text, codes,
  ◌==◌, any, if◌then◌else◌,
}
use kompose.Base.Int.{ℤ, pos}
use kompose.Base.Decimal.{itoa_ℕ}
use kompose.Base.Dict.{Dict, lookup, get_text}
use kompose.Base.Outcome.{Outcome, ok, err, panic, ◌>>=◌}
use kompose.Kobject.{Volumes, ServiceConfig}
use kompose.Loader.Names.{normalize_volumes}
use kompose.Transformer.Volume.{VolumeSpec, parse_volume}

-- types.ServiceVolumeConfig: what the loader reads
pub record ServiceVolumeConfig : Type 0 where
  pub source : Text
  pub target : Text
  pub read_only : Bool

unfoldable pub load_volume : ServiceVolumeConfig → Text
load_volume v =
    let bound = if v.target == [] then v.source else v.source ++ b':' ∷ v.target in
    if v.read_only then bound ++ codes ":ro" else bound

unfoldable pub load_volumes : List ServiceVolumeConfig → List Text
unfolding load_volume
load_volumes volumes = map load_volume volumes

unfoldable pub pvc_name : Text → ℕ → Text
pvc_name svc i = svc ++ (codes "-claim" ++ itoa_ℕ i)

unfoldable pub volume_of : Text → ℕ → VolumeSpec → Volumes
unfolding pvc_name normalize_volumes
volume_of svc i v = record {
  svc_name = svc;
  mount_path = v.host ++ b':' ∷ v.container;
  v_from = [];
  volume_name = normalize_volumes v.name;
  host = v.host;
  container = v.container;
  mode = v.mode;
  pvc_name = pvc_name svc i;
  pvc_size = [];
  selector_value = [];
}

-- The loop from the index `i` on.
unfoldable pub parse_vols_from : Text → ℕ → List Text → Outcome (List Volumes)
unfolding volume_of
parse_vols_from svc i [] = ok []
parse_vols_from svc i (vn ∷ names) =
    let rest = parse_vols_from svc (suc i) names in
    parse_volume vn >>= λ v. rest >>= λ vols. ok (volume_of svc i v ∷ vols)

unfoldable pub parse_vols : List Text → Text → Outcome (List Volumes)
unfolding parse_vols_from
parse_vols names svc = parse_vols_from svc 0 names

-- The first volume with the same mount path.
unfoldable pub get_vol : Volumes → List Volumes → Option Volumes
get_vol v [] = none
get_vol v (d ∷ vols) = if v.mount_path == d.mount_path then some d else get_vol v vols

-- No volume has the claim of the dependent one.
unfoldable pub check_vol_dependent : Volumes → List Volumes → Bool
check_vol_dependent d vols = not (any (λ v. v.pvc_name == d.pvc_name) vols)

-- A volume of the service, which takes the claim of a dependent volume with its mount path.
unfoldable pub adopt : List Volumes → Volumes → Volumes
unfolding get_vol
adopt deps cv = elim (get_vol cv deps) [
  | none ↦ cv
  | some d ↦ record cv {
    v_from = if d.v_from == [] then d.svc_name else d.v_from;
    svc_name = d.svc_name;
    pvc_name = d.pvc_name;
  }
]

unfoldable pub add_dependent : List Volumes → List Volumes → List Volumes
unfolding check_vol_dependent
add_dependent [] volume = volume
add_dependent (d ∷ deps) volume = add_dependent deps (
    if check_vol_dependent d volume
    then volume ++ record d { v_from = d.svc_name } ∷ []
    else volume)

unfoldable pub vol_list_of : Dict ServiceConfig → Text → List Text
unfolding lookup
vol_list_of services svc = elim (lookup svc services) [ none ↦ [] | some s ↦ s.vol_list ]

unfoldable pub volumes_from_of : Dict ServiceConfig → Text → List Text
unfolding lookup
volumes_from_of services svc = elim (lookup svc services) [ none ↦ [] | some s ↦ s.volumes_from ]

-- The loop over volumes-from; `retrieve` is the recursive call, `own` the parse of the service's own
-- volumes.
unfoldable pub retrieve_from :
    (Text → Outcome (List Volumes))
    → Outcome (List Volumes)
    → List Text
    → List Volumes
    → Outcome (List Volumes)
unfolding adopt add_dependent
retrieve_from retrieve own [] volume = ok volume
retrieve_from retrieve own (dep ∷ deps) volume = do
  d ← retrieve dep
  c ← own
  retrieve_from retrieve own deps (add_dependent d (volume ++ map (adopt d) c))

-- Recursion along volumes-from, on fuel: it panics when the fuel runs out, as on a cycle.
unfoldable pub retrieve_volume : ℕ → Dict ServiceConfig → Text → Outcome (List Volumes)
unfolding vol_list_of volumes_from_of retrieve_from parse_vols
retrieve_volume zero services svc = panic
retrieve_volume (suc f) services svc =
    let own = parse_vols (vol_list_of services svc) svc in
    let through =
      retrieve_from (retrieve_volume f services) own (volumes_from_of services svc) [] in
    elim (volumes_from_of services svc) [ [] ↦ own | d ∷ deps ↦ through ]

-- The size and the selector that the labels of a root level volume give.
unfoldable pub get_volume_labels : Text → Dict (Dict Text) → Text × Text
unfolding lookup get_text
get_volume_labels name volumes = elim (lookup name volumes) [
  | none ↦ ([], [])
  | some labels ↦ (
    get_text (codes "kompose.volume.size") labels,
    get_text (codes "kompose.volume.selector") labels,
  )
]

unfoldable pub label_volume : Dict (Dict Text) → Volumes → Volumes
unfolding get_volume_labels
label_volume volumes v =
    let (size, selector) = get_volume_labels v.volume_name volumes in
    if not (size == []) || not (selector == [])
    then record v { pvc_size = size; selector_value = selector }
    else v

-- An error leaves the service without volumes; it is dropped.
unfoldable pub handled_volumes : Dict (Dict Text) → Outcome (List Volumes) → Outcome (List Volumes)
unfolding label_volume
handled_volumes volumes (ok vols) = ok (map (label_volume volumes) vols)
handled_volumes volumes err = ok []
handled_volumes volumes panic = panic

-- The loop over the services; what it reads of them it does not write.
unfoldable pub handle_volume_in :
    ℕ → Dict ServiceConfig → Dict (Dict Text) → Dict ServiceConfig → Outcome (Dict ServiceConfig)
unfolding retrieve_volume handled_volumes
handle_volume_in fuel all volumes [] = ok []
handle_volume_in fuel all volumes ((name, s) ∷ services) =
    let rest = handle_volume_in fuel all volumes services in
    handled_volumes volumes (retrieve_volume fuel all name) >>= λ vols.
    rest >>= λ r. ok ((name, record s { volumes = vols }) ∷ r)

unfoldable pub handle_volume :
    ℕ → Dict ServiceConfig → Dict (Dict Text) → Outcome (Dict ServiceConfig)
unfolding handle_volume_in
handle_volume fuel services volumes = handle_volume_in fuel services volumes services

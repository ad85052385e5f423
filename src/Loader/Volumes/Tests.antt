-- ===== src/Loader/Volumes/Tests.antt =====
-- The volumes of a service with two entries.
use kompose.Base.{◌≡◌, refl, [], ◌∷◌, List, Text, codes, ◌==◌, contains, split}
use kompose.Base.Outcome.{ok}
use kompose.Kobject.{Volumes}
use kompose.Transformer.Volume.{VolumeSpec, parse_volume}
use kompose.Base.Dict.{Dict, lookup}
use kompose.Kobject.{ServiceConfig}
use kompose.Kobject.Samples.{bare_service}
use kompose.Loader.Volumes.{volume_of, parse_vols, vol_list_of, volumes_from_of, retrieve_volume}
use kompose.Loader.Volumes.Depth.{Agree, retrieve_volume-Agree}
use kompose.Base.{ℕ, ◌<◌, All, Bool-cases, inl, inr, if◌then◌else◌, arith}

abbrev cache : VolumeSpec
cache = record { name = []; host = []; container = codes "/cache"; mode = codes "rw" }

abbrev data_volume : VolumeSpec
data_volume = record { name = codes "data"; host = []; container = codes "/data"; mode = [] }

abbrev entries : List Text
entries = codes "/cache:rw" ∷ codes "data:/data" ∷ []

abbrev parsed_volumes : List Volumes
parsed_volumes = volume_of (codes "web") 0 cache ∷ volume_of (codes "web") 1 data_volume ∷ []

entries_parsed : parse_vols entries (codes "web") ≡ ok parsed_volumes
unfolding parse_vols parse_volume ◌==◌ contains split
entries_parsed = refl

abbrev web_name : Text
web_name = codes "web"

abbrev store_name : Text
store_name = codes "store"

abbrev chained : Dict ServiceConfig
chained =
    (web_name, record bare_service { volumes_from = store_name ∷ []; vol_list = entries })
    ∷ (store_name, record bare_service { vol_list = codes "/cache:rw" ∷ [] })
    ∷ []

abbrev rank : Text → ℕ
rank s = if web_name == s then 1 else 0

store_rank : rank store_name ≡ 0
unfolding ◌==◌
store_rank = refl

falls : (s : Text) → All (λ d. rank d < rank s) (volumes_from_of chained s)
unfolding volumes_from_of lookup ◌==◌
falls s = elim (Bool-cases (web_name == s)) [
  | inl e ↦ rw e (omega (arith, store_rank), tt)
  | inr e ↦ rw e (elim (Bool-cases (store_name == s)) [ inl i ↦ rw i tt | inr i ↦ rw i tt ])
]

abbrev cache_entry : List Text
cache_entry = codes "/cache:rw" ∷ []

cache_parses : (s : Text) → parse_vols cache_entry s ≡ ok (volume_of s 0 cache ∷ [])
unfolding parse_vols parse_volume ◌==◌ contains split
cache_parses s = refl

entries_parse :
    (s : Text) → parse_vols entries s ≡ ok (volume_of s 0 cache ∷ volume_of s 1 data_volume ∷ [])
unfolding parse_vols parse_volume ◌==◌ contains split
entries_parse s = refl

no_entries : (s : Text) → parse_vols [] s ≡ ok []
unfolding parse_vols
no_entries s = refl

parses : (s : Text) → (c : List Volumes) × (parse_vols (vol_list_of chained s) s ≡ ok c)
unfolding vol_list_of lookup parse_vols ◌==◌
parses s = elim (Bool-cases (web_name == s)) [
  | inl e ↦ rw e (volume_of s 0 cache ∷ volume_of s 1 data_volume ∷ [], entries_parse s)
  | inr e ↦ rw e (elim (Bool-cases (store_name == s)) [
    | inl i ↦ rw i (volume_of s 0 cache ∷ [], cache_parses s)
    | inr i ↦ rw i ([], no_entries s)
  ])
]

web_rank : rank web_name ≡ 1
unfolding ◌==◌
web_rank = refl

retrieve_volume-Agree_example :
    Agree (retrieve_volume 2 chained web_name) (retrieve_volume 9 chained web_name)
retrieve_volume-Agree_example =
    retrieve_volume-Agree chained rank falls parses 2 9 web_name (omega (arith, web_rank))
      (omega (arith, web_rank))

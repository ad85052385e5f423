-- ===== src/Loader/Volumes/Depth.antt =====
-- Following volumes-from ends, if no service is reached from itself.
use Prim.Native.Nat.{zero, suc}
use kompose.Base.{ℕ, ◌≤◌, ◌<◌, ◌≡◌, refl, List, [], ◌∷◌, ◌++◌, map, arith, Text, All}
use kompose.Base.Dict.{Dict}
use kompose.Base.Outcome.{Outcome, ok}
use kompose.Kobject.{Volumes, ServiceConfig}
use kompose.Loader.Volumes.{
  parse_vols, vol_list_of, volumes_from_of, adopt, add_dependent, retrieve_from, retrieve_volume,
}

-- Both calls return, and the same volumes.
pub record Agree (a b : Outcome (List Volumes)) : Type 0 where
  pub vols : List Volumes
  pub first : a ≡ ok vols
  pub second : b ≡ ok vols

from-Agree :
    (r q : Text → Outcome (List Volumes)) (own : Outcome (List Volumes)) (c : List Volumes)
    (deps : List Text) (volume : List Volumes)
    → own ≡ ok c
    → All (λ d. Agree (r d) (q d)) deps
    → Agree (retrieve_from r own deps volume) (retrieve_from q own deps volume)
unfolding retrieve_from
from-Agree r q own c [] volume e _ = record { vols = volume; first = refl; second = refl }
from-Agree r q own c (d ∷ deps) volume e (h, hs) =
    rw (h.first, h.second, e)
      (from-Agree r q own c deps (add_dependent h.vols (volume ++ map (adopt h.vols) c)) e hs)

choose :
    (deps : List Text) (own a b : Outcome (List Volumes))
    → Agree own own
    → Agree a b
    → Agree (elim deps [ [] ↦ own | d ∷ ds ↦ a ]) (elim deps [ [] ↦ own | d ∷ ds ↦ b ])
choose [] own a b h _ = h
choose (d ∷ deps) own a b _ h = h

module _ (services : Dict ServiceConfig) (rank : Text → ℕ)
    (falls : (s : Text) → All (λ d. rank d < rank s) (volumes_from_of services s))
    (parses : (s : Text)
      → (c : List Volumes) × (parse_vols (vol_list_of services s) s ≡ ok c)) where
  each-Agree :
      (f g n : ℕ) (deps : List Text)
      → ((d : Text)
          → rank d < f
          → rank d < g
          → Agree (retrieve_volume f services d) (retrieve_volume g services d))
      → n ≤ f
      → n ≤ g
      → All (λ d. rank d < n) deps
      → All (λ d. Agree (retrieve_volume f services d) (retrieve_volume g services d)) deps
  each-Agree f g n [] call hf hg _ = tt
  each-Agree f g n (d ∷ deps) call hf hg (h, hs) =
      (call d (omega arith) (omega arith), each-Agree f g n deps call hf hg hs)

  -- Where every service's own volumes parse, and a rank falls along volumes-from, so that no service is
  -- reached from itself, the volumes of a service are retrieved for any fuel above its rank, and they do
  -- not depend on the fuel.
  pub retrieve_volume-Agree :
      (f g : ℕ) (svc : Text)
      → rank svc < f
      → rank svc < g
      → Agree (retrieve_volume f services svc) (retrieve_volume g services svc)
  unfolding retrieve_volume
  retrieve_volume-Agree zero g svc hf hg = absurd (omega arith)
  retrieve_volume-Agree (suc f) zero svc hf hg = absurd (omega arith)
  retrieve_volume-Agree (suc f) (suc g) svc hf hg =
      let (c, e) = parses svc in
      let each =
        each-Agree f g (rank svc) (volumes_from_of services svc) (retrieve_volume-Agree f g)
          (omega arith) (omega arith) (falls svc) in
      let r =
        from-Agree (retrieve_volume f services) (retrieve_volume g services)
          (parse_vols (vol_list_of services svc) svc) c (volumes_from_of services svc) [] e each in
      choose (volumes_from_of services svc) (parse_vols (vol_list_of services svc) svc)
        (retrieve_from (retrieve_volume f services) (parse_vols (vol_list_of services svc) svc)
          (volumes_from_of services svc) [])
        (retrieve_from (retrieve_volume g services) (parse_vols (vol_list_of services svc) svc)
          (volumes_from_of services svc) [])
        (record { vols = c; first = e; second = e }) r

-- ===== src/Kubernetes/Objects/Order.antt =====
-- Services first, and no object twice.
use kompose.Base.{
  Bool, true, false, not, ◌≡◌, ◌≢◌, ◌↔◌, ◌⊎◌, inl, inr, ap₂, sym, List, [], ◌∷◌, ◌++◌, map, filter,
  arith, Text, ◌==◌, ==_iff, any, All, In, AllDistinct, Bool-cases, append_assoc, append-nil,
}
use kompose.Kubernetes.Types.{RuntimeObject}
use kompose.Kubernetes.Objects.{
  is_service, sort_services_from, sort_services_first, dup_key, remove_dup_from, remove_dup_objects,
}

sort_from :
    (objs svc others : List RuntimeObject)
    → sort_services_from objs svc others
      ≡ (svc ++ filter is_service objs) ++ (others ++ filter (λ o. not (is_service o)) objs)
unfolding sort_services_from
sort_from [] svc others = ap₂ (λ a b. a ++ b) (sym (append-nil svc)) (sym (append-nil others))
sort_from (o ∷ objs) svc others = ground (
  arith,
  sort_from objs (svc ++ o ∷ []) others,
  sort_from objs svc (others ++ o ∷ []),
  append_assoc svc (o ∷ []) (filter is_service objs),
  append_assoc others (o ∷ []) (filter (λ x. not (is_service x)) objs),
)

-- The services come first, then the other objects, each in their old order.
pub sort_services_first-filter :
    (objs : List RuntimeObject)
    → sort_services_first objs ≡ filter is_service objs ++ filter (λ o. not (is_service o)) objs
unfolding sort_services_first
sort_services_first-filter objs = sort_from objs [] []

abbrev pub dup_keys : List RuntimeObject → List Text
dup_keys = map dup_key

abbrev seen : Text → List Text → Bool
seen k exist = any (λ j. j == k) exist

drop_seen :
    (j : Text) (exist ks : List Text)
    → All (λ k. seen k (j ∷ exist) ≡ false) ks
    → All (λ k. j ≢ k) ks × All (λ k. seen k exist ≡ false) ks
drop_seen j exist [] h = (tt, tt)
drop_seen j exist (k ∷ ks) (hk, h) =
    let (nes, es) = drop_seen j exist ks h in
    let ne : j ≢ k = ground (arith, ==_iff j k) in
    let e : seen k exist ≡ false = ground (arith, ==_iff j k) in ((ne, nes), (e, es))

kept_new :
    (objs : List RuntimeObject) (exist : List Text)
    → All (λ k. seen k exist ≡ false) (dup_keys (remove_dup_from objs exist))
      × AllDistinct (dup_keys (remove_dup_from objs exist))
unfolding remove_dup_from
kept_new [] exist = (tt, tt)
kept_new (o ∷ objs) exist = elim (Bool-cases (seen (dup_key o) exist)) [
  | inl e ↦ rw e (kept_new objs exist)
  | inr e ↦
      let (new, apart) = kept_new objs (dup_key o ∷ exist) in
      let (ne, fresh) = drop_seen (dup_key o) exist _ new in rw e ((e, fresh), (ne, apart))
]

kept_all :
    (objs : List RuntimeObject) (exist : List Text) (k : Text)
    → In k (dup_keys objs)
    → (seen k exist ≡ true) ⊎ In k (dup_keys (remove_dup_from objs exist))
unfolding remove_dup_from
kept_all [] exist k h = elim h [ ]
kept_all (o ∷ objs) exist k (inl i) = elim (Bool-cases (seen (dup_key o) exist)) [
  | inl e ↦ inl (rw i e)
  | inr e ↦ rw e (inr (inl i))
]
kept_all (o ∷ objs) exist k (inr h) = elim (Bool-cases (seen (dup_key o) exist)) [
  | inl e ↦ rw e (kept_all objs exist k h)
  | inr e ↦ rw e (elim (kept_all objs (dup_key o ∷ exist) k h) [
    | inl s ↦ ground (arith, s, ==_iff (dup_key o) k)
    | inr m ↦ inr (inr m)
  ])
]

kept_only :
    (objs : List RuntimeObject) (exist : List Text) (k : Text)
    → In k (dup_keys (remove_dup_from objs exist))
    → In k (dup_keys objs)
unfolding remove_dup_from
kept_only [] exist k h = h
kept_only (o ∷ objs) exist k h = elim (Bool-cases (seen (dup_key o) exist)) [
  | inl e ↦ inr (kept_only objs exist k (rw e at h))
  | inr e ↦
      let m : (k ≡ dup_key o) ⊎ In k (dup_keys (remove_dup_from objs (dup_key o ∷ exist))) =
        rw e at h in
      elim m [ inl i ↦ inl i | inr n ↦ inr (kept_only objs (dup_key o ∷ exist) k n) ]
]

-- No key of kind, namespace and name is left twice.
pub remove_dup_objects-AllDistinct :
    (objs : List RuntimeObject) → AllDistinct (dup_keys (remove_dup_objects objs))
unfolding remove_dup_objects
remove_dup_objects-AllDistinct objs = (kept_new objs []).1

-- The keys that are left are those of the objects.
pub remove_dup_objects-keys :
    (objs : List RuntimeObject) (k : Text)
    → In k (dup_keys (remove_dup_objects objs)) ↔ In k (dup_keys objs)
unfolding remove_dup_objects
remove_dup_objects-keys objs k = (
  kept_only objs [] k,
  λ h. elim (kept_all objs [] k h) [ inl e ↦ absurd (ground (arith, e)) | inr m ↦ m ],
)

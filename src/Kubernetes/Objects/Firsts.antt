-- ===== src/Kubernetes/Objects/Firsts.antt =====
-- The first object of each text of version, kind, namespace and name.
use kompose.Base.{
  Bool, true, false, not, ◌≡◌, refl, sym, ap, ◌∙◌, inl, inr, List, [], ◌∷◌, ◌++◌, filter,
  filter-filter, Text, codes, ◌==◌, ==_iff, any, append_assoc, Bool-cases, if◌then◌else◌,
}
use kompose.Kubernetes.Types.{RuntimeObject}
use kompose.Kubernetes.Objects.{dup_key, remove_dup_from, remove_dup_objects}

-- The version, the kind, the namespace and the name as one text.
identity_text : RuntimeObject → Text
identity_text o =
    o.api_version ++ (codes ", Kind=" ++ (o.kind ++ (o.meta.namespace ++ o.meta.name)))

-- Each object, and of the objects behind it those that differ from it in this text.
pub firsts : List RuntimeObject → List RuntimeObject
firsts [] = []
firsts (o ∷ objs) = o ∷ filter (λ p. not (identity_text o == identity_text p)) (firsts objs)

dup_key-identity_text : (o : RuntimeObject) → dup_key o ≡ identity_text o
unfolding dup_key identity_text
dup_key-identity_text o =
    append_assoc (o.api_version ++ codes ", Kind=" ++ o.kind) o.meta.namespace o.meta.name
    ∙ append_assoc (o.api_version ++ codes ", Kind=") o.kind (o.meta.namespace ++ o.meta.name)
    ∙ append_assoc o.api_version (codes ", Kind=") (o.kind ++ (o.meta.namespace ++ o.meta.name))

abbrev seen : List Text → RuntimeObject → Bool
seen exist o = any (λ k. k == dup_key o) exist

seen-other :
    (exist : List Text) (o p : RuntimeObject)
    → seen exist o ≡ true
    → (if not (identity_text o == identity_text p) then not (seen exist p) else false)
      ≡ not (seen exist p)
seen-other exist o p h = elim (Bool-cases (identity_text o == identity_text p)) [
  | inl e ↦
      let same : dup_key p ≡ dup_key o =
        dup_key-identity_text p
        ∙ sym ((==_iff (identity_text o) (identity_text p)).0 e)
        ∙ sym (dup_key-identity_text o) in
      let found : seen exist p ≡ true = rw same h in rw (e, found) refl
  | inr e ↦ rw e refl
]

seen-next :
    (exist : List Text) (o p : RuntimeObject)
    → (if not (identity_text o == identity_text p) then not (seen exist p) else false)
      ≡ not (seen (dup_key o ∷ exist) p)
seen-next exist o p =
    let same : (identity_text o == identity_text p) ≡ (dup_key o == dup_key p) =
      rw (dup_key-identity_text o, dup_key-identity_text p) refl in
    rw same (elim (Bool-cases (dup_key o == dup_key p)) [ inl e ↦ rw e refl | inr e ↦ rw e refl ])

remove_dup_from-firsts :
    (objs : List RuntimeObject) (exist : List Text)
    → remove_dup_from objs exist ≡ filter (λ p. not (seen exist p)) (firsts objs)
unfolding remove_dup_from firsts
remove_dup_from-firsts [] exist = refl
remove_dup_from-firsts (o ∷ objs) exist = elim (Bool-cases (seen exist o)) [
  | inl e ↦ rw e (
      remove_dup_from-firsts objs exist
      ∙ sym (
          filter-filter (λ p. not (seen exist p)) (λ p. not (identity_text o == identity_text p))
            (λ p. not (seen exist p)) (λ p. seen-other exist o p e) (firsts objs)))
  | inr e ↦ rw e (
      ap (λ xs. o ∷ xs)
        (remove_dup_from-firsts objs (dup_key o ∷ exist)
          ∙ sym (
              filter-filter (λ p. not (seen exist p))
                (λ p. not (identity_text o == identity_text p))
                (λ p. not (seen (dup_key o ∷ exist) p)) (λ p. seen-next exist o p) (firsts objs))))
]

none_seen : (objs : List RuntimeObject) → filter (λ p. not (seen [] p)) objs ≡ objs
none_seen [] = refl
none_seen (o ∷ objs) = ap (λ xs. o ∷ xs) (none_seen objs)

-- RemoveDupObjects keeps the first object of each text.
pub remove_dup_objects-firsts : (objs : List RuntimeObject) → remove_dup_objects objs ≡ firsts objs
unfolding remove_dup_objects
remove_dup_objects-firsts objs = remove_dup_from-firsts objs [] ∙ none_seen (firsts objs)

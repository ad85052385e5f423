-- ===== src/Kubernetes/NetworkMode/Move.antt =====
-- Removing a deployment by its name.
use Prim.Native.Nat.{zero, suc}
use kompose.Base.{
  ℕ, Bool, true, false, not, ◌≡◌, refl, sym, ap, ◌∙◌, ◌⊎◌, inl, inr, some, List, [], ◌∷◌, ◌++◌,
  filter, filter-append, arith, Text, length, get_elem?, append_assoc, append-nil, In, Bool-cases,
}
use kompose.Kubernetes.Types.{RuntimeObject}
use kompose.Kubernetes.NetworkMode.{
  is_named, deep_equal, deep_equal_iff, remove_from_slice, remove_target_from,
  remove_target_deployment,
}

abbrev pub is_kept : Text → RuntimeObject → Bool
is_kept name o = not (is_named name o)

-- A list with a last element.
snoc-view :
    (xs : List RuntimeObject) (n : ℕ)
    → length xs ≡ suc n
    → (ys : List RuntimeObject) × (o : RuntimeObject) × (xs ≡ ys ++ o ∷ []) × (length ys ≡ n)
snoc-view [] n h = absurd (omega arith)
snoc-view (x ∷ []) n h = ([], x, refl, omega arith)
snoc-view (x ∷ y ∷ xs) zero h = absurd (omega arith)
snoc-view (x ∷ y ∷ xs) (suc n) h =
    let (ys, o, e, l) = snoc-view (y ∷ xs) n (omega arith) in
    (x ∷ ys, o, ap (λ r. x ∷ r) e, omega arith)

get_at_end :
    (xs : List RuntimeObject) (o : RuntimeObject) (ys : List RuntimeObject)
    → get_elem? ((xs ++ o ∷ []) ++ ys) (length xs) ≡ some o
get_at_end [] o ys = refl
get_at_end (x ∷ xs) o ys = get_at_end xs o ys

In-snoc : (xs : List RuntimeObject) (o : RuntimeObject) → In o (xs ++ o ∷ [])
In-snoc [] o = inl refl
In-snoc (x ∷ xs) o = inr (In-snoc xs o)

-- Removing an object that is not kept takes one object out of the front part, and none that is kept.
remove-front :
    (name : Text) (o : RuntimeObject) (xs ys : List RuntimeObject)
    → In o xs
    → is_kept name o ≡ false
    → (zs : List RuntimeObject) × (suc (length zs) ≡ length xs)
      × (filter (is_kept name) zs ≡ filter (is_kept name) xs)
      × (remove_from_slice (xs ++ ys) o ≡ zs ++ ys)
unfolding remove_from_slice
remove-front name o [] ys h k = elim h [ ]
remove-front name o (x ∷ xs) ys h k = elim (Bool-cases (deep_equal x o)) [
  | inl e ↦
      let kx : is_kept name x ≡ false = rw ((deep_equal_iff x o).0 e) k in
      (xs, refl, ground (arith, kx), ground (arith, e))
  | inr e ↦
      let m : In o xs = elsewhere h e in
      let (zs, l, f, r) = remove-front name o xs ys m k in
      (x ∷ zs, omega arith, ground (arith, f), ground (arith, e, r))
]
  where
    elsewhere : (o ≡ x) ⊎ In o xs → deep_equal x o ≡ false → In o xs
    elsewhere (inl i) e =
        let t : deep_equal x o ≡ true = (deep_equal_iff x o).1 (sym i) in absurd (ground (arith, t))
    elsewhere (inr m) e = m

remove-from :
    (name : Text) (n : ℕ) (xs ys : List RuntimeObject)
    → length xs ≡ n
    → remove_target_from n name (xs ++ ys) ≡ filter (is_kept name) xs ++ ys
unfolding remove_target_from
remove-from name zero [] ys h = refl
remove-from name zero (x ∷ xs) ys h = absurd (omega arith)
remove-from name (suc n) xs ys h =
    let (zs, o, e, l) = snoc-view xs n h in
    let at : get_elem? (xs ++ ys) n ≡ some o = rw (e, ← l) (get_at_end zs o ys) in
    elim (Bool-cases (is_named name o)) [
      | inl named ↦
          let (ws, lw, f, r) = remove-front name o xs ys (rw e (In-snoc zs o)) (rw named) in
          rw (at, named, r) (remove-from name n ws ys (omega arith) ∙ ap (λ u. u ++ ys) f)
      | inr other ↦
          let split : xs ++ ys ≡ zs ++ o ∷ ys = ap (λ u. u ++ ys) e ∙ append_assoc zs (o ∷ []) ys in
          let kept : filter (is_kept name) xs ≡ filter (is_kept name) zs ++ o ∷ [] =
            ap (filter (is_kept name)) e ∙ filter-append (is_kept name) zs (o ∷ []) ∙ rw other in
          rw (at, other, split)
            (remove-from name n zs (o ∷ ys) l
              ∙ sym (ap (λ u. u ++ ys) kept ∙ append_assoc (filter (is_kept name) zs) (o ∷ []) ys))
    ]

-- The backward loop that removes equal objects one at a time leaves exactly the objects that are no
-- Deployment of the name, in their order, duplicates included.
pub remove_target_deployment-filter :
    (name : Text) (objs : List RuntimeObject)
    → remove_target_deployment name objs ≡ filter (is_kept name) objs
unfolding remove_target_deployment
remove_target_deployment-filter name objs =
    ap (remove_target_from (length objs) name) (sym (append-nil objs))
    ∙ remove-from name (length objs) objs [] refl
    ∙ append-nil _

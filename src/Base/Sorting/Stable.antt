-- ===== src/Base/Sorting/Stable.antt =====
-- The result of the sort is in order, and records of one text keep their order.
use kompose.Base.{
  Bool, true, ◌≡◌, ◌⊎◌, inl, inr, refl, List, [], ◌∷◌, map, filter, Text, ◌==◌, ==_iff, All,
  Bool-cases, arith,
}
use kompose.Base.Sorting.{text_leb, sort_insert, sort_stable}

pub text_leb_total : (s t : Text) → (text_leb s t ≡ true) ⊎ (text_leb t s ≡ true)
unfolding text_leb
text_leb_total [] t = inl refl
text_leb_total (x ∷ s) [] = inr refl
text_leb_total (x ∷ s) (y ∷ t) = ground (arith, text_leb_total s t)

pub text_leb_trans :
    (s t u : Text) → text_leb s t ≡ true → text_leb t u ≡ true → text_leb s u ≡ true
unfolding text_leb
text_leb_trans [] t u h k = refl
text_leb_trans (x ∷ s) [] u h k = absurd (ground arith)
text_leb_trans (x ∷ s) (y ∷ t) [] h k = absurd (ground arith)
text_leb_trans (x ∷ s) (y ∷ t) (z ∷ u) h k = ground (arith, text_leb_trans s t u)

text_leb_refl : (s : Text) → text_leb s s ≡ true
text_leb_refl s = elim (text_leb_total s s) [ inl h ↦ h | inr h ↦ h ]

-- Every text is at most those behind it.
abbrev pub IsSorted : List Text → Type 0
IsSorted [] = Unit
IsSorted (s ∷ ts) = All (λ t. text_leb s t ≡ true) ts × IsSorted ts

below-All :
    (s t : Text) (us : List Text)
    → text_leb s t ≡ true
    → All (λ u. text_leb t u ≡ true) us
    → All (λ u. text_leb s u ≡ true) us
below-All s t [] h _ = tt
below-All s t (u ∷ us) h (hu, hs) = (text_leb_trans s t u h hu, below-All s t us h hs)

module _ {A : Type 0} (key : A → Text) where
  All-insert :
      (s : Text) (a : A) (bs : List A)
      → text_leb s (key a) ≡ true
      → All (λ t. text_leb s t ≡ true) (map key bs)
      → All (λ t. text_leb s t ≡ true) (map key (sort_insert key a bs))
  unfolding sort_insert
  All-insert s a [] h _ = (h, tt)
  All-insert s a (b ∷ bs) h (hb, hs) = elim (Bool-cases (text_leb (key a) (key b))) [
    | inl e ↦ rw e (h, (hb, hs))
    | inr e ↦ rw e (hb, All-insert s a bs h hs)
  ]

  insert-IsSorted :
      (a : A) (bs : List A) → IsSorted (map key bs) → IsSorted (map key (sort_insert key a bs))
  unfolding sort_insert
  insert-IsSorted a [] _ = (tt, tt)
  insert-IsSorted a (b ∷ bs) (hb, hs) = elim (Bool-cases (text_leb (key a) (key b))) [
    | inl e ↦ rw e ((e, below-All (key a) (key b) (map key bs) e hb), (hb, hs))
    | inr e ↦
        let h : text_leb (key b) (key a) ≡ true = ground (arith, text_leb_total (key a) (key b)) in
        rw e (All-insert (key b) a bs h hb, insert-IsSorted a bs hs)
  ]

  pub sort_stable-IsSorted : (xs : List A) → IsSorted (map key (sort_stable key xs))
  unfolding sort_stable
  sort_stable-IsSorted [] = tt
  sort_stable-IsSorted (a ∷ rest) =
      insert-IsSorted a (sort_stable key rest) (sort_stable-IsSorted rest)

  abbrev pub of_key : Text → A → Bool
  of_key k a = key a == k

  insert-filter :
      (k : Text) (a : A) (bs : List A)
      → filter (of_key k) (sort_insert key a bs) ≡ filter (of_key k) (a ∷ bs)
  unfolding sort_insert
  insert-filter k a [] = refl
  insert-filter k a (b ∷ bs) =
      ground
        (arith, insert-filter k a bs, ==_iff (key a) k, ==_iff (key b) k, text_leb_refl (key a))

  -- Filtering for one text, the sorted records are the records: nothing is lost, added or reordered.
  pub sort_stable-filter :
      (k : Text) (xs : List A) → filter (of_key k) (sort_stable key xs) ≡ filter (of_key k) xs
  unfolding sort_stable
  sort_stable-filter k [] = refl
  sort_stable-filter k (a ∷ rest) =
      ground (arith, insert-filter k a (sort_stable key rest), sort_stable-filter k rest)

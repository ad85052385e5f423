-- ===== src/Base/Sorting.antt =====
-- Stable sorting of records by a text, in Go's order of strings.
pub mod Stable
use kompose.Base.{ℕ, Bool, true, false, List, [], ◌∷◌, Text, ltb, nat_eq, if◌then◌else◌}

-- s <= t
unfoldable pub text_leb : Text → Text → Bool
text_leb [] t = true
text_leb (x ∷ s) [] = false
text_leb (x ∷ s) (y ∷ t) = if ltb x y then true else if nat_eq x y then text_leb s t else false

module _ {A : Type 0} (key : A → Text) where
  unfoldable pub sort_insert : A → List A → List A
  unfolding text_leb
  sort_insert a [] = a ∷ []
  sort_insert a (b ∷ bs) =
      let rest = sort_insert a bs in if text_leb (key a) (key b) then a ∷ b ∷ bs else b ∷ rest

  -- The result of a stable sort is unique, so that its algorithm does not matter.
  unfoldable pub sort_stable : List A → List A
  unfolding sort_insert
  sort_stable [] = []
  sort_stable (a ∷ rest) = sort_insert a (sort_stable rest)

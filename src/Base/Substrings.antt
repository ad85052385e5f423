-- ===== src/Base/Substrings.antt =====
-- strings.Contains and strings.Split for a text of several bytes.
use Prim.Native.Nat.{zero, suc}
use kompose.Base.{ℕ, ◌-◌, Bool, true, List, [], ◌∷◌, Text, has_prefix, length, if◌then◌else◌}

-- strings.Contains(s, p)
unfoldable pub contains_text : Text → Text → Bool
contains_text [] p = has_prefix [] p
contains_text (c ∷ s) p = if has_prefix (c ∷ s) p then true else contains_text s p

-- The first part and the others, with a byte in front of the first.
abbrev pub onto_first : ℕ → List Text → List Text
onto_first c [] = (c ∷ []) ∷ []
onto_first c (p ∷ parts) = (c ∷ p) ∷ parts

-- strings.Split(s, sep) for a separator of one byte or more; `skip` bytes of s belong to a separator
-- that was found.
unfoldable pub split_at : Text → ℕ → Text → List Text
split_at sep skip [] = [] ∷ []
split_at sep (suc skip) (c ∷ s) = split_at sep skip s
split_at sep zero (c ∷ s) =
    let found = [] ∷ split_at sep (length sep - 1) s in
    let more = onto_first c (split_at sep zero s) in if has_prefix (c ∷ s) sep then found else more

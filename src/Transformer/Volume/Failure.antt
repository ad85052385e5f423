-- ===== src/Transformer/Volume/Failure.antt =====
-- Where parseVolume panics: behind a name nothing but an access mode is left.
use kompose.Base.{
  Bool, true, false, ◌≡◌, ◌≢◌, ◌↔◌, ◌||◌, refl, inl, inr, List, [], ◌∷◌, arith, Text, split,
  split-cons, Bool-cases, get_last?-cons, drop_last,
}
use kompose.Base.Outcome.{panic}
use kompose.Transformer.Volume.{
  is_path, parse_paths, parse_mode, parse_parts, parse_volume_text, is_label_mode, is_access_mode,
}
use kompose.Transformer.Volume.RoundTrip.{path_not_mode}

-- z, Z, rw or ro
abbrev pub is_mode : Text → Bool
is_mode m = is_label_mode m || is_access_mode m

-- The text is a name and a mode: two parts, the first no path and the second a mode.
pub record IsNameAndMode (volume : Text) : Type 0 where
  pub name : Text
  pub mode : Text
  pub parts : split volume b':' ≡ name ∷ mode ∷ []
  pub named : is_path name ≡ false
  pub moded : is_mode mode ≡ true

paths-ne-panic : (n m p : Text) (ps : List Text) → parse_paths n m (p ∷ ps) ≢ panic
unfolding parse_paths
paths-ne-panic n m p ps h = let (c, e) = get_last?-cons p ps in ground (arith, e)

mode-panic :
    (n : Text) (ps : List Text)
    → parse_mode n ps ≡ panic
    → (m : Text) × (ps ≡ m ∷ []) × (is_mode m ≡ true)
unfolding parse_mode
mode-panic n [] h = cc
mode-panic n (m ∷ []) h = (m, refl, ground (arith, paths-ne-panic n [] m []))
mode-panic n (a ∷ b ∷ ps) h =
    let (c, e) = get_last?-cons b ps in
    absurd (
      ground (
        arith,
        e,
        paths-ne-panic n [] a (drop_last (b ∷ ps)),
        paths-ne-panic n c a (drop_last (b ∷ ps)),
        paths-ne-panic n [] a (b ∷ ps),
      ))

parts-panic :
    (p : Text) (ps : List Text)
    → parse_parts (p ∷ ps) ≡ panic
    → (m : Text) × (ps ≡ m ∷ []) × (is_path p ≡ false) × (is_mode m ≡ true)
unfolding parse_parts
parts-panic p ps h = elim (Bool-cases (is_path p)) [
  | inl e ↦
      let (m, es, em) = mode-panic [] (p ∷ ps) (ground (arith, e)) in
      absurd (ground (arith, e, es, em, path_not_mode p e))
  | inr e ↦ let (m, es, em) = mode-panic p ps (ground (arith, e)) in (m, es, e, em)
]

panics : (volume : Text) → IsNameAndMode volume → parse_volume_text volume ≡ panic
unfolding parse_volume_text parse_parts parse_mode parse_paths
panics volume w = rw (w.parts, w.named) (ground (arith, w.moded))

-- parseVolume panics exactly on a name followed by an access mode and nothing else.
pub parse_volume_text-panics :
    (volume : Text) → (parse_volume_text volume ≡ panic) ↔ IsNameAndMode volume
unfolding parse_volume_text
parse_volume_text-panics volume = (
  λ h.
      let (p, ps, e) = split-cons volume b':' in
      let (m, es, pn, pm) = parts-panic p ps (rw e at h) in
      record { name = p; mode = m; parts = cc (e, es); named = pn; moded = pm },
  panics volume,
)

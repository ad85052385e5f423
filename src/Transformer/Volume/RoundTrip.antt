-- ===== src/Transformer/Volume/RoundTrip.antt =====
-- A volume that is written in the format is read back; what is read is well formed.
use kompose.Base.{
  true, false, ◌≡◌, ◌≢◌, refl, ap, ◌⊎◌, inl, inr, List, [], ◌∷◌, ◌++◌, arith, Text, codes, ◌==◌,
  ==_iff, All, All-append, Lacks, Lacks-contains, join, join-Lacks, split-join, split-cons,
  Option-cases, get_last?, drop_last, contains,
}
use kompose.Base.Outcome.{ok}
use kompose.Transformer.Volume.{
  VolumeSpec, is_path, contain_windows_path, parse_paths, parse_mode, parse_parts,
  parse_volume_text, parse_volume, is_label_mode, is_access_mode,
}

-- An access mode that the parser keeps, or none.
abbrev pub IsMode : Text → Type 0
IsMode m = (m ≡ []) ⊎ (m ≡ codes "rw") ⊎ (m ≡ codes "ro")

-- What a parsed volume satisfies.
pub record IsVolume (v : VolumeSpec) : Type 0 where
  pub named : is_path v.name ≡ false
  pub hosted : (v.host ≡ []) ⊎ (is_path v.host ≡ true)
  pub contained : is_path v.container ≡ true
  pub moded : IsMode v.mode

-- No part holds the separator or a backslash.
abbrev pub IsPart : Text → Type 0
IsPart s = Lacks b':' s × Lacks b'\\' s

pub record IsPlain (v : VolumeSpec) : Type 0 where
  pub name_part : IsPart v.name
  pub host_part : IsPart v.host
  pub container_part : IsPart v.container

-- A part that is left out where it is empty.
abbrev pub optional : Text → List Text
optional [] = []
optional (c ∷ s) = (c ∷ s) ∷ []

abbrev pub volume_parts : VolumeSpec → List Text
volume_parts v = optional v.name ++ (optional v.host ++ v.container ∷ optional v.mode)

-- `[name:][host:]container[:mode]`
pub volume_text : VolumeSpec → Text
volume_text v = join (volume_parts v) b':'

modes_not_paths :
    (is_path (codes "z") ≡ false)
    × (is_path (codes "Z") ≡ false)
    × (is_path (codes "rw") ≡ false)
    × (is_path (codes "ro") ≡ false)
    × (is_path [] ≡ false)
unfolding is_path contains ◌==◌
modes_not_paths = (refl, refl, refl, refl, refl)

-- A path is no access mode.
pub path_not_mode :
    (c : Text) → is_path c ≡ true → (is_label_mode c ≡ false) × (is_access_mode c ≡ false)
path_not_mode c h = ground (
  arith,
  modes_not_paths,
  ==_iff c (codes "z"),
  ==_iff c (codes "Z"),
  ==_iff c (codes "rw"),
  ==_iff c (codes "ro"),
)

access_modes :
    (is_label_mode (codes "rw") ≡ false)
    × (is_label_mode (codes "ro") ≡ false)
    × (is_access_mode (codes "rw") ≡ true)
    × (is_access_mode (codes "ro") ≡ true)
unfolding ◌==◌
access_modes = (refl, refl, refl, refl)

read_container :
    (n c m : Text)
    → is_path c ≡ true
    → IsMode m
    → parse_mode n (c ∷ optional m) ≡ ok (record { name = n; host = []; container = c; mode = m })
unfolding parse_mode parse_paths
read_container n c m pc (inl e) = rw e (ground (arith, path_not_mode c pc))
read_container n c m pc (inr (inl e)) = rw e (ground (arith, path_not_mode c pc, access_modes))
read_container n c m pc (inr (inr e)) = rw e (ground (arith, path_not_mode c pc, access_modes))

read_host :
    (n h c m : Text)
    → is_path h ≡ true
    → is_path c ≡ true
    → IsMode m
    → parse_mode n (h ∷ c ∷ optional m)
      ≡ ok (record { name = n; host = h; container = c; mode = m })
unfolding parse_mode parse_paths
read_host n h c m ph pc (inl e) = rw e (ground (arith, path_not_mode c pc))
read_host n h c m ph pc (inr (inl e)) = rw e (ground (arith, path_not_mode c pc, access_modes))
read_host n h c m ph pc (inr (inr e)) = rw e (ground (arith, path_not_mode c pc, access_modes))

read_paths :
    (n h c m : Text)
    → (h ≡ []) ⊎ (is_path h ≡ true)
    → is_path c ≡ true
    → IsMode m
    → parse_mode n (optional h ++ c ∷ optional m)
      ≡ ok (record { name = n; host = h; container = c; mode = m })
read_paths n [] c m _ pc hm = read_container n c m pc hm
read_paths n (x ∷ h) c m (inl e) pc hm = cc
read_paths n (x ∷ h) c m (inr ph) pc hm = read_host n (x ∷ h) c m ph pc hm

read_parts :
    (n h c m : Text)
    → is_path n ≡ false
    → (h ≡ []) ⊎ (is_path h ≡ true)
    → is_path c ≡ true
    → IsMode m
    → parse_parts (optional n ++ (optional h ++ c ∷ optional m))
      ≡ ok (record { name = n; host = h; container = c; mode = m })
unfolding parse_parts
read_parts (x ∷ n) h c m pn ph pc hm = rw pn (read_paths (x ∷ n) h c m ph pc hm)
read_parts [] [] c m pn ph pc hm = rw pc (read_paths [] [] c m ph pc hm)
read_parts [] (x ∷ h) c m pn (inl e) pc hm = cc
read_parts [] (x ∷ h) c m pn (inr ph) pc hm = rw ph (read_paths [] (x ∷ h) c m (inr ph) pc hm)

IsMode-IsPart : (m : Text) → IsMode m → All IsPart (optional m)
IsMode-IsPart m (inl e) = rw e tt
IsMode-IsPart m (inr (inl e)) = rw e (omega arith)
IsMode-IsPart m (inr (inr e)) = rw e (omega arith)

optional-IsPart : (s : Text) → IsPart s → All IsPart (optional s)
optional-IsPart [] h = tt
optional-IsPart (c ∷ s) h = (h, tt)

All-optional-append :
    (s : Text) (ps : List Text) → IsPart s → All IsPart ps → All IsPart (optional s ++ ps)
All-optional-append s ps h hs = All-append IsPart (optional s) ps (optional-IsPart s h) hs

parts_plain :
    (n h c m : Text)
    → IsPart n
    → IsPart h
    → IsPart c
    → IsMode m
    → All IsPart (optional n ++ (optional h ++ c ∷ optional m))
parts_plain n h c m pn ph pc hm =
    All-optional-append n _ pn (All-optional-append h _ ph (pc, IsMode-IsPart m hm))

All-first : (ps : List Text) → All IsPart ps → All (Lacks b':') ps
All-first [] h = tt
All-first (p ∷ ps) (hp, hs) = (hp.0, All-first ps hs)

All-second : (ps : List Text) → All IsPart ps → All (Lacks b'\\') ps
All-second [] h = tt
All-second (p ∷ ps) (hp, hs) = (hp.1, All-second ps hs)

-- Parsing a join of parts that hold neither separator nor backslash parses the parts.
pub parse_volume-join :
    (ps : List Text) → ps ≢ [] → All IsPart ps → parse_volume (join ps b':') ≡ parse_parts ps
unfolding parse_volume parse_volume_text contain_windows_path
parse_volume-join [] ne h = absurd (ne refl)
parse_volume-join (p ∷ ps) ne h =
    rw
      (Lacks-contains b'\\' _
        (join-Lacks b'\\' b':' (p ∷ ps) (omega arith) (All-second (p ∷ ps) h)))
      (ap parse_parts (split-join p ps b':' h.0.0 (All-first ps h.1)))

ends_in_container : (n h c m : Text) → (optional n ++ (optional h ++ c ∷ optional m)) ≢ []
ends_in_container [] [] c m e = cc
ends_in_container [] (x ∷ h) c m e = cc
ends_in_container (x ∷ n) h c m e = cc

-- A well-formed volume whose parts hold no colon and no backslash is read back from its text, with
-- each part that is empty left out.
pub parse_volume-volume_text :
    (v : VolumeSpec) → IsVolume v → IsPlain v → parse_volume (volume_text v) ≡ ok v
unfolding volume_text
parse_volume-volume_text v w p =
    rw
      (parse_volume-join (volume_parts v) (ends_in_container v.name v.host v.container v.mode) (
        parts_plain v.name v.host v.container v.mode p.name_part p.host_part p.container_part
          w.moded))
      (read_parts v.name v.host v.container v.mode w.named w.hosted w.contained w.moded)

paths-IsVolume :
    (n m : Text) (ps : List Text) (v : VolumeSpec)
    → is_path n ≡ false
    → IsMode m
    → parse_paths n m ps ≡ ok v
    → IsVolume v
unfolding parse_paths
paths-IsVolume n m [] v pn hm h = cc
paths-IsVolume n m (c ∷ []) v pn hm h = ground arith
paths-IsVolume n m ([] ∷ c ∷ []) v pn hm h = ground arith
paths-IsVolume n m ((b ∷ x) ∷ c ∷ []) v pn hm h = ground arith
paths-IsVolume n m (x ∷ y ∷ c ∷ ps) v pn hm h = ground arith

access-IsMode : (m : Text) → is_access_mode m ≡ true → IsMode m
access-IsMode m h = ground (arith, ==_iff m (codes "rw"), ==_iff m (codes "ro"))

mode-IsVolume :
    (n : Text) (ps : List Text) (v : VolumeSpec)
    → is_path n ≡ false
    → parse_mode n ps ≡ ok v
    → IsVolume v
unfolding parse_mode
mode-IsVolume n ps v pn h = elim (Option-cases (get_last? ps)) [
  | inl e ↦ ground arith
  | inr (m, e) ↦ ground (
    arith,
    access-IsMode m,
    paths-IsVolume n [] (drop_last ps) v pn (inl refl),
    paths-IsVolume n m (drop_last ps) v pn,
    paths-IsVolume n [] ps v pn (inl refl),
  )
]

-- Whatever the text, a result has a container and a host (if any) that are paths, a name that is
-- none, and no mode or one of rw and ro.
pub parse_volume_text-IsVolume :
    (volume : Text) (v : VolumeSpec) → parse_volume_text volume ≡ ok v → IsVolume v
unfolding parse_volume_text parse_parts
parse_volume_text-IsVolume volume v h =
    let (p, ps, e) = split-cons volume b':' in
    ground (arith, e, modes_not_paths, mode-IsVolume [] (p ∷ ps) v, mode-IsVolume p ps v)

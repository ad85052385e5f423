-- ===== src/Transformer/Volume/Windows.antt =====
-- The documented forms of a Windows volume: drives, a name before them and a mode behind them.
use kompose.Base.{
  ℕ, true, false, ◌≡◌, [], ◌∷◌, arith, Text, split-join, join, Lacks, All, if◌then◌else◌,
}
use kompose.Base.Outcome.{ok}
use kompose.Transformer.Volume.{
  is_path, contain_windows_path, collect_paths, name_and_mode, host_and_container,
  parse_windows_parts, parse_windows_volume, is_label_mode,
}

-- `C:\…`: a drive letter, a colon, and a fragment with a backslash
abbrev pub drive_path : ℕ → Text → Text
drive_path letter path = letter ∷ b':' ∷ path

-- A fragment that is no path of either kind.
abbrev pub IsWord : Text → Type 0
IsWord s = (contain_windows_path s ≡ false) × (is_path s ≡ false)

-- A path behind a drive: it holds a backslash and no colon.
abbrev pub IsDrivePath : Text → Type 0
IsDrivePath s = (contain_windows_path s ≡ true) × Lacks b':' s

module _ (name mode wh wc : Text) (c d : ℕ) (hn : IsWord name) (hm : IsWord mode)
    (hc : IsWord (c ∷ [])) (hd : IsWord (d ∷ [])) (hwh : IsDrivePath wh)
    (hwc : IsDrivePath wc) where
  collect_drives :
      collect_paths (name ∷ (c ∷ []) ∷ wh ∷ (d ∷ []) ∷ wc ∷ mode ∷ []) [] []
      ≡ ok (name ∷ mode ∷ [], drive_path c wh ∷ drive_path d wc ∷ [])
  unfolding collect_paths
  collect_drives = ground arith

-- The text name:C:\…:D:\…:mode has the name, the host on the first drive, the container on the
-- second, and the mode, which is dropped if it is z or Z. The parts between the colons hold none,
-- the name, the mode and the drive letters are words, and the paths hold a backslash.
pub parse_windows_volume-drives :
    (name mode wh wc : Text) (c d : ℕ)
    → IsWord name
    → IsWord mode
    → IsWord (c ∷ [])
    → IsWord (d ∷ [])
    → IsDrivePath wh
    → IsDrivePath wc
    → All (Lacks b':') (name ∷ mode ∷ (c ∷ d ∷ []) ∷ [])
    → parse_windows_volume (join (name ∷ (c ∷ []) ∷ wh ∷ (d ∷ []) ∷ wc ∷ mode ∷ []) b':')
      ≡ ok (record {
        name = name;
        host = drive_path c wh;
        container = drive_path d wc;
        mode = if is_label_mode mode then [] else mode;
      })
unfolding parse_windows_volume parse_windows_parts name_and_mode host_and_container
parse_windows_volume-drives name mode wh wc c d hn hm hc hd hwh hwc (ln, (lm, ((lc, (ld, _)), _))) =
    rw (
      split-join name ((c ∷ []) ∷ wh ∷ (d ∷ []) ∷ wc ∷ mode ∷ []) b':' ln
          ((lc, tt), (hwh.1, ((ld, tt), (hwc.1, (lm, tt))))),
      collect_drives name mode wh wc c d hn hm hc hd hwh hwc,
    )

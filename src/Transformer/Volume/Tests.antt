-- ===== src/Transformer/Volume/Tests.antt =====
-- Inputs of pkg/transformer/utils_test.go, and the theorems at concrete volumes.
use kompose.Base.{◌≡◌, ◌↔◌, refl, inr, arith, codes, split, ◌==◌, contains, true, false}
use kompose.Base.Outcome.{ok, err, panic}
use kompose.Transformer.Volume.{
  VolumeSpec, is_path, contain_windows_path, parse_volume, parse_volume_text,
}
use kompose.Transformer.Volume.RoundTrip.{
  IsVolume, volume_text, parse_volume-volume_text, parse_volume_text-IsVolume,
}
use kompose.Transformer.Volume.Failure.{IsNameAndMode, parse_volume_text-panics}

abbrev data_volume : VolumeSpec
data_volume = record {
  name = codes "data";
  host = codes "./src";
  container = codes "/app";
  mode = codes "ro";
}

parsed : parse_volume_text (codes "data:./src:/app:ro") ≡ ok data_volume
unfolding parse_volume_text ◌==◌ contains split
parsed = refl

too_many : parse_volume (codes "a:/b:/c:/d") ≡ err
unfolding parse_volume ◌==◌ contains split
too_many = refl

windows :
    parse_volume (codes "v:C:\\Users\\Data:D:\\config:rw")
    ≡ ok (record {
      name = codes "v";
      host = codes "C:\\Users\\Data";
      container = codes "D:\\config";
      mode = codes "rw";
    })
unfolding parse_volume ◌==◌ contains split
windows = refl

data_volume-IsVolume : IsVolume data_volume
unfolding is_path contains ◌==◌
data_volume-IsVolume = record {
  named = refl;
  hosted = inr refl;
  contained = refl;
  moded = inr (inr refl);
}

parse_volume-volume_text_example : parse_volume (volume_text data_volume) ≡ ok data_volume
parse_volume-volume_text_example =
    parse_volume-volume_text data_volume data_volume-IsVolume (omega arith)

parse_volume_text-IsVolume_example : IsVolume data_volume
parse_volume_text-IsVolume_example =
    parse_volume_text-IsVolume (codes "data:./src:/app:ro") data_volume parsed

data_ro-IsNameAndMode : IsNameAndMode (codes "data:ro")
unfolding is_path contains ◌==◌ split
data_ro-IsNameAndMode = record {
  name = codes "data";
  mode = codes "ro";
  parts = refl;
  named = refl;
  moded = refl;
}

parse_volume_text-panics_example :
    (parse_volume_text (codes "data:ro") ≡ panic) ↔ IsNameAndMode (codes "data:ro")
parse_volume_text-panics_example = parse_volume_text-panics (codes "data:ro")

panic_on_name_and_mode : parse_volume_text (codes "data:ro") ≡ panic
panic_on_name_and_mode = (parse_volume_text-panics (codes "data:ro")).1 data_ro-IsNameAndMode

word : (contain_windows_path (codes "v") ≡ false) × (is_path (codes "v") ≡ false)
unfolding is_path contain_windows_path contains ◌==◌
word = (refl, refl)

mode_word : (contain_windows_path (codes "rw") ≡ false) × (is_path (codes "rw") ≡ false)
unfolding is_path contain_windows_path contains ◌==◌
mode_word = (refl, refl)

letter : (contain_windows_path (codes "C") ≡ false) × (is_path (codes "C") ≡ false)
unfolding is_path contain_windows_path contains ◌==◌
letter = (refl, refl)

backslashed : contain_windows_path (codes "\\Data") ≡ true
unfolding contain_windows_path contains
backslashed = refl

-- ===== src/Base/Dict.antt =====
-- Go maps as association lists. The order of the list stands for an order of iteration.
use mathlib.Core.Path.{◌≡◌, refl}
use mathlib.Core.Option.{Option, none, some}
use mathlib.Core.List.{List, [], ◌∷◌}
use native.Mathlib.Omega.{arith}
use kompose.Base.Tests.{if◌then◌else◌}
use kompose.Base.Strings.{Text, ◌==◌, ==_iff}

abbrev pub Dict {ℓ} : Type ℓ → Type ℓ
Dict V = List (Text × V)

module _ {ℓ} {V : Type ℓ} where
  unfoldable pub lookup : Text → Dict V → Option V
  lookup key [] = none
  lookup key ((first, value) ∷ rest) = if first == key then some value else lookup key rest

  -- m[key] = value
  unfoldable pub insert : Text → V → Dict V → Dict V
  insert key value [] = (key, value) ∷ []
  insert key value ((first, old) ∷ rest) =
      if first == key then (first, value) ∷ rest else (first, old) ∷ insert key value rest

  pub lookup-insert :
      (key other : Text) (value : V) (entries : Dict V)
      → lookup other (insert key value entries)
        ≡ (if key == other then some value else lookup other entries)
  unfolding lookup insert
  lookup-insert key other value [] = refl
  lookup-insert key other value ((first, old) ∷ rest) = ground (
    arith,
    ==_iff first other,
    ==_iff first key,
    ==_iff key other,
    lookup-insert key other value rest,
  )

-- m[k], with the zero value of a string for a missing key
unfoldable pub get_text : Text → Dict Text → Text
unfolding lookup
get_text k m = elim (lookup k m) [ none ↦ [] | some v ↦ v ]

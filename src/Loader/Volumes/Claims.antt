-- ===== src/Loader/Volumes/Claims.antt =====
-- The claims of a service's volumes.
use Prim.Native.Nat.{zero, suc}
use kompose.Base.{
  ℕ, ◌<◌, ◌≡◌, ◌≢◌, refl, List, [], ◌∷◌, ◌++◌, map, arith, Text, codes, All, AllDistinct, length,
}
use kompose.Base.Decimal.{itoa_ℕ, itoa_ℕ-injective}
use kompose.Base.Outcome.{ok, ◌>>=◌, >>=-eq-ok}
use kompose.Kobject.{Volumes}
use kompose.Transformer.Volume.{parse_volume}
use kompose.Loader.Volumes.{pvc_name, volume_of, parse_vols_from, parse_vols}

cancel_prefix : (s t u : Text) → s ++ t ≡ s ++ u → t ≡ u
cancel_prefix [] t u e = e
cancel_prefix (c ∷ s) t u e = cancel_prefix s t u (ground arith)

pvc_name-injective : (svc : Text) (i j : ℕ) → pvc_name svc i ≡ pvc_name svc j → i ≡ j
unfolding pvc_name
pvc_name-injective svc i j e =
    itoa_ℕ-injective i j
      (cancel_prefix (codes "-claim") (itoa_ℕ i) (itoa_ℕ j) (cancel_prefix svc _ _ e))

abbrev pub claim : Volumes → Text
claim v = v.pvc_name

-- The claims from the index `i` on.
claims_from : Text → ℕ → ℕ → List Text
claims_from svc i zero = []
claims_from svc i (suc n) = pvc_name svc i ∷ claims_from svc (suc i) n

length-claims_from : (svc : Text) (i n : ℕ) → length (claims_from svc i n) ≡ n
unfolding claims_from
length-claims_from svc i zero = refl
length-claims_from svc i (suc n) = ground (arith, length-claims_from svc (suc i) n)

claims_later :
    (svc : Text) (k i n : ℕ) → k < i → All (λ y. pvc_name svc k ≢ y) (claims_from svc i n)
unfolding claims_from
claims_later svc k i zero h = tt
claims_later svc k i (suc n) h = (
  λ e. absurd (omega (arith, pvc_name-injective svc k i e)),
  claims_later svc k (suc i) n (omega arith),
)

claims_distinct : (svc : Text) (i n : ℕ) → AllDistinct (claims_from svc i n)
unfolding claims_from
claims_distinct svc i zero = tt
claims_distinct svc i (suc n) =
    (claims_later svc i (suc i) n (omega arith), claims_distinct svc (suc i) n)

parse-claims :
    (svc : Text) (i : ℕ) (names : List Text) (vols : List Volumes)
    → parse_vols_from svc i names ≡ ok vols
    → map claim vols ≡ claims_from svc i (length names)
unfolding parse_vols_from claims_from volume_of
parse-claims svc i [] vols h = ground arith
parse-claims svc i (vn ∷ names) vols h =
    let (v, _, h₁) =
      >>=-eq-ok (parse_volume vn)
        (λ v. parse_vols_from svc (suc i) names >>= λ vs. ok (volume_of svc i v ∷ vs)) h in
    let (vs, e, h₂) =
      >>=-eq-ok (parse_vols_from svc (suc i) names) (λ vs. ok (volume_of svc i v ∷ vs)) h₁ in
    ground (arith, h₂, parse-claims svc (suc i) names vs e)

-- The volumes of a service are as many as its entries, and their claims are distinct.
pub parse_vols-AllDistinct :
    (names : List Text) (svc : Text) (vols : List Volumes)
    → parse_vols names svc ≡ ok vols
    → (length (map claim vols) ≡ length names) × AllDistinct (map claim vols)
unfolding parse_vols
parse_vols-AllDistinct names svc vols h =
    rw (parse-claims svc 0 names vols h)
      (length-claims_from svc 0 (length names), claims_distinct svc 0 (length names))

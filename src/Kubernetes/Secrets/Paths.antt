-- ===== src/Kubernetes/Secrets/Paths.antt =====
-- The mount path of a secret is absolute and ends in the item's name.
use kompose.Base.{
  true, ◌≡◌, ◌⊎◌, inl, inr, refl, sym, ap, ◌∙◌, some, List, [], ◌∷◌, ◌++◌, append_assoc, Text,
  codes, ==_iff, has_prefix, split, join, join-split, split-append, split-cons, get_last?,
  get_last?-cons, Bool-cases, arith,
}
use kompose.Kobject.{FileReference}
use kompose.Kubernetes.Secrets.{run_secrets, last_part, target_of, get_secret_paths}

-- The joined parts are the last one, or end in a slash and the last one.
join-last :
    (p : Text) (ps : List Text)
    → (l : Text) × (get_last? (p ∷ ps) ≡ some l)
      × ((join (p ∷ ps) b'/' ≡ l) ⊎ ((d : Text) × (join (p ∷ ps) b'/' ≡ d ++ b'/' ∷ l)))
unfolding join
join-last p [] = (p, ground arith, inl (ground arith))
join-last p (q ∷ ps) =
    let (l, e, o) = join-last q ps in
    (
      l,
      e,
      elim o [
        | inl i ↦ inr (p, ap (λ t. p ++ b'/' ∷ t) i)
        | inr (d, i) ↦
            inr (
              p ++ b'/' ∷ d,
              ap (λ t. p ++ b'/' ∷ t) i ∙ sym (append_assoc p (b'/' ∷ d) (b'/' ∷ l)),
            )
      ],
    )

last_part-split :
    (path p l : Text) (ps : List Text)
    → split path b'/' ≡ p ∷ ps
    → get_last? (p ∷ ps) ≡ some l
    → last_part path ≡ l
unfolding last_part
last_part-split path p l ps e f = ground (arith, e, f)

path-last :
    (path : Text) → (path ≡ last_part path) ⊎ ((d : Text) × (path ≡ d ++ b'/' ∷ last_part path))
path-last path =
    let (p, ps, e) = split-cons path b'/' in
    let (l, f, o) = join-last p ps in
    let j : join (p ∷ ps) b'/' ≡ path = ap (λ qs. join qs b'/') (sym e) ∙ join-split path b'/' in
    rw (last_part-split path p l ps e f)
      (elim o [ inl i ↦ inl (sym j ∙ i) | inr (d, i) ↦ inr (d, sym j ∙ i) ])

last_part-absolute : (t : Text) → last_part (b'/' ∷ t) ≡ last_part t
last_part-absolute t =
    let (p, ps, e) = split-cons t b'/' in
    let (l, f) = get_last?-cons p ps in
    last_part-split (b'/' ∷ t) [] l (p ∷ ps) (split-append [] t b'/' tt ∙ ap (λ qs. [] ∷ qs) e) f
    ∙ sym (last_part-split t p l ps e f)

-- A file of that name below an absolute directory.
pub record IsFileAt (mount item : Text) : Type 0 where
  pub absolute : has_prefix mount (codes "/") ≡ true
  pub directory : Text
  pub file : mount ≡ directory ++ b'/' ∷ item

absolute-IsFileAt :
    (path : Text) → has_prefix path (codes "/") ≡ true → IsFileAt path (last_part path)
unfolding has_prefix
absolute-IsFileAt [] h = absurd (ground arith)
absolute-IsFileAt (c ∷ t) h =
    let e : c ≡ b'/' = ground arith in
    rw (e, last_part-absolute t)
      (elim (path-last t) [
        | inl i ↦ record { absolute = refl; directory = []; file = ap (λ u. b'/' ∷ u) i }
        | inr (d, i) ↦ record { absolute = refl; directory = b'/' ∷ d; file = ap (λ u. b'/' ∷ u) i }
      ])

relative-IsFileAt : (path : Text) → IsFileAt (run_secrets ++ path) (last_part path)
unfolding has_prefix
relative-IsFileAt path = elim (path-last path) [
  | inl i ↦ record {
    absolute = refl;
    directory = codes "/run/secrets";
    file = ap (λ u. run_secrets ++ u) i;
  }
  | inr (d, i) ↦ record {
    absolute = refl;
    directory = run_secrets ++ d;
    file = ap (λ u. run_secrets ++ u) i;
  }
]

has_prefix-target :
    (secret : FileReference)
    → has_prefix secret.target (codes "/") ≡ true
    → has_prefix (target_of secret) (codes "/") ≡ true
unfolding target_of has_prefix
has_prefix-target secret h = ground (arith, ==_iff secret.target [])

-- A secret is mounted at a file below an absolute directory, whose name is both the item and the sub
-- path of the mount.
pub get_secret_paths-IsFileAt :
    (secret : FileReference)
    → IsFileAt
        (get_secret_paths secret).secret_mount_path
        (get_secret_paths secret).secret_item_path
      × ((get_secret_paths secret).secret_sub_path ≡ (get_secret_paths secret).secret_item_path)
unfolding get_secret_paths
get_secret_paths-IsFileAt secret = (
  elim (Bool-cases (has_prefix secret.target (codes "/"))) [
    | inl e ↦ rw e (absolute-IsFileAt (target_of secret) (has_prefix-target secret e))
    | inr e ↦ rw e (relative-IsFileAt (target_of secret))
  ],
  refl,
)

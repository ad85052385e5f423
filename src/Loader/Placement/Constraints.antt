-- ===== src/Loader/Placement/Constraints.antt =====
-- How a constraint is read.
use kompose.Base.{
  ℕ, Bool, true, false, ◌≡◌, ◌≢◌, refl, Option, none, some, [], ◌∷◌, ◌++◌, Text, has_prefix, Lacks,
  arith,
}
use kompose.Base.Substrings.{split_at, contains_text}
use kompose.Loader.Placement.{convert_docker_label, equal, not_equal, parse_constraint}

no_space_prefix : (c : ℕ) (s p : Text) → c ≢ b' ' → has_prefix (c ∷ s) (b' ' ∷ p) ≡ false
unfolding has_prefix
no_space_prefix c s p h = ground arith

split-rest : (p s : Text) → Lacks b' ' s → split_at (b' ' ∷ p) 0 s ≡ s ∷ []
unfolding split_at has_prefix
split-rest p [] _ = refl
split-rest p (c ∷ s) (h, hs) = ground (arith, split-rest p s hs, no_space_prefix c s p h)

-- An operator of four bytes that begins with a space.
operator : ℕ → Text
operator c = b' ' ∷ c ∷ b'=' ∷ b' ' ∷ []

split-operator :
    (c : ℕ) (label value : Text)
    → Lacks b' ' label
    → Lacks b' ' value
    → split_at (operator c) 0 (label ++ (operator c ++ value)) ≡ label ∷ value ∷ []
unfolding split_at operator has_prefix
split-operator c [] value _ k =
    let i = split-rest (c ∷ b'=' ∷ b' ' ∷ []) value k in ground (arith, i)
split-operator c (x ∷ label) value (h, hs) k = ground (
  arith,
  split-operator c label value hs k,
  no_space_prefix x (label ++ (operator c ++ value)) (c ∷ b'=' ∷ b' ' ∷ []) h,
)

contains_text-Lacks : (s p : Text) → Lacks b' ' s → contains_text s (b' ' ∷ p) ≡ false
unfolding contains_text has_prefix
contains_text-Lacks [] p _ = refl
contains_text-Lacks (c ∷ s) p (h, hs) =
    ground (arith, contains_text-Lacks s p hs, no_space_prefix c s p h)

contains_text-not_equal :
    (label value : Text) → contains_text (label ++ (not_equal ++ value)) not_equal ≡ true
unfolding contains_text has_prefix
contains_text-not_equal [] value = refl
contains_text-not_equal (c ∷ label) value = ground (arith, contains_text-not_equal label value)

no_space_inside : (s : Text) → Lacks b' ' s → has_prefix s (b'!' ∷ b'=' ∷ b' ' ∷ []) ≡ false
unfolding has_prefix
no_space_inside [] _ = refl
no_space_inside (a ∷ []) _ = ground arith
no_space_inside (a ∷ b ∷ []) _ = ground arith
no_space_inside (a ∷ b ∷ c ∷ s) (_, (_, (h, _))) = ground arith

contains_text-equal :
    (label value : Text)
    → Lacks b' ' label
    → Lacks b' ' value
    → contains_text (label ++ (equal ++ value)) not_equal ≡ false
unfolding contains_text has_prefix
contains_text-equal [] value _ k =
    let i = contains_text-Lacks value (b'!' ∷ b'=' ∷ b' ' ∷ []) k in
    ground (arith, i, no_space_inside value k)
contains_text-equal (c ∷ label) value (h, hs) k = ground (
  arith,
  contains_text-equal label value hs k,
  no_space_prefix c (label ++ (equal ++ value)) (b'!' ∷ b'=' ∷ b' ' ∷ []) h,
)

-- The constraint with a converted label.
pub with_label : Text → Bool → Option Text → Option (Text × Text × Bool)
with_label value negative none = none
with_label value negative (some key) = some (key, value, negative)

-- A label and a value without spaces, joined by ` == ` or ` != `, are read as the label converted to
-- Kubernetes, the value and the operator, or as nothing for a label that is not supported.
pub parse_constraint_lem :
    (label value : Text)
    → Lacks b' ' label
    → Lacks b' ' value
    → (parse_constraint (label ++ (equal ++ value))
        ≡ with_label value false (convert_docker_label label))
      × (parse_constraint (label ++ (not_equal ++ value))
          ≡ with_label value true (convert_docker_label label))
unfolding parse_constraint with_label operator
parse_constraint_lem label value h k = (
  ground (arith, contains_text-equal label value h k, split-operator b'=' label value h k),
  ground (arith, contains_text-not_equal label value, split-operator b'!' label value h k),
)

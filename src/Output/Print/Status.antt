-- ===== src/Output/Print/Status.antt =====
-- What Print leaves of the text of an object.
use kompose.Base.{
  ◌≡◌, refl, ap, Bool, true, false, ◌&&◌, ◌||◌, ◌⊎◌, inl, inr, [], ◌∷◌, ◌++◌, Text, arith,
  has_prefix, Bool-cases, nat_eq, nat_eq_iff, if◌then◌else◌, ℕ,
}
use kompose.Output.Print.{status_line, drop_status}

-- The line `status:` begins somewhere in the text.
unfoldable pub has_status : Text → Bool
unfolding has_prefix
has_status [] = false
has_status (c ∷ text) = has_prefix (c ∷ text) status_line || has_status text

has_prefix-cons :
    (x c : ℕ) (s p : Text) → has_prefix (x ∷ s) (c ∷ p) ≡ (nat_eq x c && has_prefix s p)
unfolding has_prefix
has_prefix-cons x c s p = refl

has_prefix-append : (p s : Text) → has_prefix s p ≡ true → (rest : Text) × (s ≡ p ++ rest)
unfolding has_prefix
has_prefix-append [] s h = (s, refl)
has_prefix-append (c ∷ p) [] h = cc
has_prefix-append (c ∷ p) (x ∷ s) h =
    let same : has_prefix s p ≡ true = ground arith in
    let (rest, e) = has_prefix-append p s same in (rest, ground (arith, e, nat_eq_iff x c))

drop_status-cons :
    (c : ℕ) (text : Text)
    → drop_status (c ∷ text)
      ≡ (if has_prefix (c ∷ text) status_line then [] else c ∷ drop_status text)
unfolding drop_status
drop_status-cons c text = refl

has_status-cons :
    (c : ℕ) (text : Text)
    → has_status (c ∷ text) ≡ (has_prefix (c ∷ text) status_line || has_status text)
unfolding has_status
has_status-cons c text = refl

has_prefix-nil : (c : ℕ) (p : Text) → has_prefix [] (c ∷ p) ≡ false
unfolding has_prefix
has_prefix-nil c p = refl

has_prefix-all : (s : Text) → has_prefix s [] ≡ true
unfolding has_prefix
has_prefix-all [] = refl
has_prefix-all (c ∷ s) = refl

drop_status-nil : drop_status [] ≡ []
unfolding drop_status
drop_status-nil = refl

has_status-nil : has_status [] ≡ false
unfolding has_status
has_status-nil = refl

-- A prefix of what is left is one of the text.
has_prefix-drop_status :
    (p text : Text) → has_prefix (drop_status text) p ≡ true → has_prefix text p ≡ true
has_prefix-drop_status [] text h = has_prefix-all text
has_prefix-drop_status (c ∷ p) [] h = rw drop_status-nil at h
has_prefix-drop_status (c ∷ p) (x ∷ text) h = ground (
  arith,
  drop_status-cons x text,
  has_prefix-cons x c text p,
  has_prefix-cons x c (drop_status text) p,
  has_prefix-nil c p,
  has_prefix-drop_status p text,
)

-- Nothing of the text is left behind a line `status:`.
status-drop_status : (text : Text) → has_status (drop_status text) ≡ false
status-drop_status [] = rw drop_status-nil has_status-nil
status-drop_status (c ∷ text) = ground (
  arith,
  drop_status-cons c text,
  has_status-cons c (drop_status text),
  has_status-nil,
  has_prefix-drop_status status_line (c ∷ text),
  status-drop_status text,
)

-- The text up to the first line `status:`, wherever it stands.
drop_status_split :
    (text : Text)
    → ((has_status text ≡ false) × (drop_status text ≡ text))
      ⊎ ((rest : Text) × (text ≡ drop_status text ++ (status_line ++ rest)))
drop_status_split [] = inl (has_status-nil, drop_status-nil)
drop_status_split (c ∷ text) = elim (Bool-cases (has_prefix (c ∷ text) status_line)) [
  | inl e ↦
      let (rest, f) = has_prefix-append status_line (c ∷ text) e in
      inr (rest, rw (drop_status-cons c text, e) f)
  | inr e ↦ elim (drop_status_split text) [
    | inl (none, same) ↦ inl (
      rw (has_status-cons c text, e, none),
      rw (drop_status-cons c text, e) (ap (λ t. c ∷ t) same),
    )
    | inr (rest, f) ↦ inr (rest, rw (drop_status-cons c text, e) (ap (λ t. c ∷ t) f))
  ]
]

-- Print keeps the text in front of the first line `status:`, be it in the middle of a longer key or of a
-- value, and the whole text if there is none; what it keeps has no such line.
pub drop_status_lem :
    (text : Text)
    → (has_status (drop_status text) ≡ false)
      × (((has_status text ≡ false) × (drop_status text ≡ text))
          ⊎ ((rest : Text) × (text ≡ drop_status text ++ (status_line ++ rest))))
drop_status_lem text = (status-drop_status text, drop_status_split text)

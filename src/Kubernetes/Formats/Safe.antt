-- ===== src/Kubernetes/Formats/Safe.antt =====
-- The names of env files: which are made, and which bytes they hold.
use Prim.Native.Nat.{zero, suc}
use kompose.Base.{
  ℕ, ◌≤◌, true, ◌≡◌, ◌↔◌, ◌⊎◌, inl, inr, refl, [], ◌∷◌, ◌++◌, map, Text, All, trim, trim_left,
  trim_right, arith, length, nat_eq, ltb, Bool-cases, if◌then◌else◌,
}
use kompose.Base.Outcome.{ok, panic}
use kompose.Kubernetes.Formats.{
  is_alphanumeric, is_dot_slash, take, get_usable_name_env_file, format_env_name,
}

-- A letter, a digit or a dash.
abbrev pub IsNameByte : ℕ → Type 0
IsNameByte c = (is_alphanumeric c ≡ true) ⊎ (c ≡ b'-')

length-take : (n : ℕ) (s : Text) → length (take n s) ≤ n
unfolding take
length-take zero s = omega arith
length-take (suc n) [] = omega arith
length-take (suc n) (c ∷ s) = ground (arith, length-take n s)

take-All : (n : ℕ) (s : Text) → All IsNameByte s → All IsNameByte (take n s)
unfolding take
take-All zero s h = tt
take-All (suc n) [] h = tt
take-All (suc n) (c ∷ s) (h, hs) = (h, take-All n s hs)

append-All : (s t : Text) → All IsNameByte s → All IsNameByte t → All IsNameByte (s ++ t)
append-All [] t _ h = h
append-All (c ∷ s) t (h, hs) k = (h, append-All s t hs k)

dashed-All : (s : Text) → All IsNameByte (map (λ c. if is_alphanumeric c then c else b'-') s)
dashed-All [] = tt
dashed-All (c ∷ s) = elim (Bool-cases (is_alphanumeric c)) [
  | inl e ↦ rw e (inl e, dashed-All s)
  | inr e ↦ rw e (inr refl, dashed-All s)
]

usable :
    (s service_name r : Text)
    → All IsNameByte s
    → All IsNameByte service_name
    → get_usable_name_env_file s service_name ≡ ok r
    → All IsNameByte r × (length r ≤ 63)
unfolding get_usable_name_env_file
usable [] service_name r _ _ e = absurd (ground arith)
usable (c ∷ s) service_name r h k e =
    let env_name : Text = if nat_eq c b'-' then service_name ++ c ∷ s else c ∷ s in
    let all : All IsNameByte env_name = elim (Bool-cases (nat_eq c b'-')) [
      | inl i ↦ rw i (append-All service_name (c ∷ s) k h)
      | inr i ↦ rw i h
    ] in
    elim (Bool-cases (ltb 63 (length env_name))) [
      | inl i ↦
          let q : take 63 env_name ≡ r = ground arith in
          rw⁻¹ q (take-All 63 env_name all, length-take 63 env_name)
      | inr i ↦ let q : env_name ≡ r = ground arith in rw⁻¹ q (all, ground arith)
    ]

-- For a service whose name holds letters, digits and dashes only, the name of an env file holds these
-- only and has at most 63 bytes.
pub format_env_name-IsNameByte :
    (name service_name r : Text)
    → All IsNameByte service_name
    → format_env_name name service_name ≡ ok r
    → All IsNameByte r × (length r ≤ 63)
unfolding format_env_name
format_env_name-IsNameByte name service_name r h e =
    usable (map (λ c. if is_alphanumeric c then c else b'-') (trim is_dot_slash name)) service_name
      r (dashed-All (trim is_dot_slash name)) h e

abbrev pub IsDotOrSlash : ℕ → Type 0
IsDotOrSlash c = is_dot_slash c ≡ true

right-nil : (s : Text) → (trim_right is_dot_slash s ≡ []) ↔ All IsDotOrSlash s
unfolding trim_right
right-nil [] = (λ _. tt, λ _. refl)
right-nil (c ∷ s) = ground (arith, right-nil s)

left-nil : (s : Text) → All IsDotOrSlash (trim_left is_dot_slash s) ↔ All IsDotOrSlash s
unfolding trim_left
left-nil [] = (λ h. h, λ h. h)
left-nil (c ∷ s) = ground (arith, left-nil s)

-- The name is not made, and the program panics, exactly if the path of the env file holds dots and
-- slashes only.
pub format_env_name-panics :
    (name service_name : Text) → (format_env_name name service_name ≡ panic) ↔ All IsDotOrSlash name
unfolding format_env_name get_usable_name_env_file trim
format_env_name-panics name service_name =
    ground (arith, right-nil (trim_left is_dot_slash name), left-nil name)

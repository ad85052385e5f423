-- ===== src/Loader/Names/Laws.antt =====
-- What normalised names and environment entries look like.
use kompose.Base.{
  ℕ, ◌≡◌, ◌≢◌, ◌⊎◌, inl, inr, refl, some, [], ◌∷◌, ◌++◌, arith, Text, ◌==◌, lower, to_lower,
  lower_idem, All, Lacks, if◌then◌else◌,
}
use kompose.Loader.Names.{
  handle_service_type, normalize_service_names, is_separator, separator_of, cut, load_env_var,
}

-- A byte that a normalised service name may hold: no dot, no underscore, no upper-case letter.
abbrev pub IsServiceByte : ℕ → Type 0
IsServiceByte c = (c ≢ b'.') × (c ≢ b'_') × (to_lower c ≡ c)

service_byte : (c : ℕ) → IsServiceByte (to_lower (if is_separator c then b'-' else c))
unfolding to_lower
service_byte c = ground arith

service_byte_fixed : (c : ℕ) → IsServiceByte c → to_lower (if is_separator c then b'-' else c) ≡ c
service_byte_fixed c h = ground arith

service_bytes : (s : Text) → All IsServiceByte (normalize_service_names s)
unfolding normalize_service_names lower
service_bytes [] = tt
service_bytes (c ∷ s) = (service_byte c, service_bytes s)

service_bytes_fixed : (s : Text) → All IsServiceByte s → normalize_service_names s ≡ s
unfolding normalize_service_names lower
service_bytes_fixed [] h = refl
service_bytes_fixed (c ∷ s) (hc, hs) = cc (service_byte_fixed c hc, service_bytes_fixed s hs)

-- A normalised service name holds no dot, underscore or upper-case letter, and normalising it again
-- changes nothing.
pub normalize_service_names_idem :
    (s : Text)
    → All IsServiceByte (normalize_service_names s)
      × (normalize_service_names (normalize_service_names s) ≡ normalize_service_names s)
normalize_service_names_idem s = (service_bytes s, service_bytes_fixed _ (service_bytes s))

separator_of-skip : (x : ℕ) (s : Text) → x ≢ b'=' → x ≢ b':' → separator_of (x ∷ s) ≡ separator_of s
unfolding separator_of
separator_of-skip x s h k = ground arith

separator_of-first :
    (name rest : Text) (c : ℕ)
    → Lacks b'=' name
    → Lacks b':' name
    → (c ≡ b'=') ⊎ (c ≡ b':')
    → separator_of (name ++ c ∷ rest) ≡ some c
separator_of-first [] rest c h k e = unfold separator_of in ground arith
separator_of-first (x ∷ name) rest c (hx, h) (kx, k) e =
    cc (separator_of-skip x (name ++ c ∷ rest) hx kx, separator_of-first name rest c h k e)

cut-first : (name rest : Text) (c : ℕ) → Lacks c name → cut c (name ++ c ∷ rest) ≡ some (name, rest)
unfolding cut
cut-first [] rest c h = ground arith
cut-first (x ∷ name) rest c (hx, h) = ground (arith, cut-first name rest c h)

separator_Lacks :
    (name : Text) (c : ℕ)
    → Lacks b'=' name
    → Lacks b':' name
    → (c ≡ b'=') ⊎ (c ≡ b':')
    → Lacks c name
separator_Lacks name c h k (inl e) = rw e h
separator_Lacks name c h k (inr e) = rw e k

-- An entry is split at its first `=` or `:`, whichever it is: the name is what stands before it, and
-- an empty value behind it is taken from the environment.
pub load_env_var_split :
    (getenv : Text → Text) (name value : Text) (c : ℕ)
    → Lacks b'=' name
    → Lacks b':' name
    → (c ≡ b'=') ⊎ (c ≡ b':')
    → load_env_var getenv (name ++ c ∷ value)
      ≡ record { name = name; value = if value == [] then getenv name else value }
unfolding load_env_var
load_env_var_split getenv name value c h k e = rw (
  separator_of-first name value c h k e,
  cut-first name value c (separator_Lacks name c h k e),
  load_env_var,
)

lower-eq-handle : (s t : Text) → lower s ≡ lower t → handle_service_type s ≡ handle_service_type t
unfolding handle_service_type
lower-eq-handle s t e = rw e

-- The service type is recognised in any mixture of cases.
pub handle_service_type-lower : (s : Text) → handle_service_type (lower s) ≡ handle_service_type s
handle_service_type-lower s = lower-eq-handle (lower s) s (lower_idem s)

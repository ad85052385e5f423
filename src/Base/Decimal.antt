-- ===== src/Base/Decimal.antt =====
-- strconv.Itoa and strconv.Atoi.
use Prim.Native.Nat.{ℕ, zero, suc, ◌+◌, ◌-◌, ◌*◌, ◌/◌, ◌%◌, ◌^◌, ◌≤◌, ◌<◌}
use mathlib.Core.Path.{◌≡◌, refl}
use mathlib.Core.Bool.{Bool, true, false, ◌&&◌}
use mathlib.Core.Option.{Option, none, some}
use mathlib.Core.List.{[], ◌∷◌}
use native.Mathlib.Omega.{arith}
use kompose.Base.Tests.{ltb, leb, nat_eq, if◌then◌else◌}
use kompose.Base.Lists.{All}
use kompose.Base.Int.{ℤ, pos, negsuc}
use kompose.Base.Strings.{Text, codes}

-- Decimal digits of `n` before `out`; the first argument is fuel.
print_digits : ℕ → ℕ → Text → Text
print_digits zero n out = out
print_digits (suc f) n out =
    let rest = print_digits f (n / 10) ((b'0' + n % 10) ∷ out) in
    if ltb n 10 then (b'0' + n) ∷ out else rest

-- strconv.Itoa of a number that is not negative; `n + 1` rounds are enough.
unfoldable pub itoa_ℕ : ℕ → Text
unfolding print_digits
itoa_ℕ n = print_digits (suc n) n []

unfoldable pub itoa : ℤ → Text
unfolding itoa_ℕ
itoa (pos n) = itoa_ℕ n
itoa (negsuc n) = b'-' ∷ itoa_ℕ (suc n)

abbrev pub is_digit : ℕ → Bool
is_digit c = leb b'0' c && leb c b'9'

-- The number that the digits spell behind `n`; `none` at another byte.
pub read_digits : ℕ → Text → Option ℕ
read_digits n [] = some n
read_digits n (c ∷ s) =
    let rest = read_digits (n * 10 + (c - b'0')) s in if is_digit c then rest else none

-- One digit or more.
read_number : Text → Option ℕ
unfolding read_digits
read_number [] = none
read_number (c ∷ s) = read_digits 0 (c ∷ s)

-- The range of int64, which `int` has on a 64-bit target.
signed : Bool → Option ℕ → Option ℤ
signed negative none = none
signed false (some n) = if ltb n (2 ^ 63) then some (pos n) else none
signed true (some zero) = some (pos 0)
signed true (some (suc n)) = if ltb n (2 ^ 63) then some (negsuc n) else none

-- strconv.Atoi and strconv.ParseInt(s, 10, 64): `none` is an error.
unfoldable pub atoi : Text → Option ℤ
unfolding read_number signed
atoi [] = none
atoi (c ∷ s) =
    if nat_eq c b'-'
    then signed true (read_number s)
    else if nat_eq c b'+'
    then signed false (read_number s)
    else signed false (read_number (c ∷ s))

read-print_digits :
    (f n : ℕ) (out : Text) → n < f → read_digits 0 (print_digits f n out) ≡ read_digits n out
unfolding print_digits read_digits
read-print_digits zero n out h = absurd (omega arith)
read-print_digits (suc f) n out h =
    ground (arith, read-print_digits f (n / 10) ((b'0' + n % 10) ∷ out))

-- Reading a printed number gives it back.
pub read-itoa_ℕ : (n : ℕ) → read_digits 0 (itoa_ℕ n) ≡ some n
unfolding itoa_ℕ read_digits
read-itoa_ℕ n = read-print_digits (suc n) n [] (omega arith)

-- Different numbers are printed differently.
pub itoa_ℕ-injective : (n m : ℕ) → itoa_ℕ n ≡ itoa_ℕ m → n ≡ m
itoa_ℕ-injective n m e = cc (read-itoa_ℕ n, read-itoa_ℕ m)

abbrev pub IsDigit : ℕ → Type 0
IsDigit c = (b'0' ≤ c) × (c ≤ b'9')

print_digits-IsDigit : (f n : ℕ) (out : Text) → All IsDigit out → All IsDigit (print_digits f n out)
unfolding print_digits
print_digits-IsDigit zero n out h = h
print_digits-IsDigit (suc f) n out h =
    ground (arith, print_digits-IsDigit f (n / 10) ((b'0' + n % 10) ∷ out))

pub itoa_ℕ-IsDigit : (n : ℕ) → All IsDigit (itoa_ℕ n)
unfolding itoa_ℕ
itoa_ℕ-IsDigit n = print_digits-IsDigit (suc n) n [] tt

itoa_test : itoa (negsuc 1233) ≡ codes "-1234"
unfolding itoa
itoa_test = refl

atoi_test : atoi (codes "-42") ≡ some (negsuc 41)
unfolding atoi
atoi_test = refl

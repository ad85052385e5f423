-- ===== src/Base/Outcome.antt =====
-- What a Go call ends in: values, an error, or the end of the program by a panic or log.Fatal.
use mathlib.Core.Path.{◌≡◌, refl}
use mathlib.Core.Option.{Option, none, some}

pub data Outcome {ℓ} (A : Type ℓ) : Type ℓ where
  ok : A → Outcome A
  err : Outcome A
  panic : Outcome A

infixl 5 ◌>>=◌
abbrev pub ◌>>=◌ {ℓ κ} : {A : Type ℓ} {B : Type κ} → Outcome A → (A → Outcome B) → Outcome B
panic >>= next = panic
err >>= next = err
ok value >>= next = next value

-- A call whose error ends the program.
abbrev pub or_panic {ℓ} : {A : Type ℓ} → Outcome A → Outcome A
or_panic (ok value) = ok value
or_panic err = panic
or_panic panic = panic

-- A call that may fail, without the reason.
abbrev pub or_err {ℓ} : {A : Type ℓ} → Option A → Outcome A
or_err none = err
or_err (some value) = ok value

-- What a successful sequence of two calls was made of.
pub >>=-eq-ok {ℓ κ} :
    {A : Type ℓ} {B : Type κ} (call : Outcome A) (next : A → Outcome B) {result : B}
    → (call >>= next) ≡ ok result
    → (value : A) × (call ≡ ok value) × (next value ≡ ok result)
>>=-eq-ok panic next e = cc
>>=-eq-ok err next e = cc
>>=-eq-ok (ok value) next e = (value, refl, e)

-- Two continuations that agree on what the call returns.
pub bind_congr {ℓ κ} :
    {A : Type ℓ} {B : Type κ} (call : Outcome A) (next other : A → Outcome B)
    → ((value : A) → call ≡ ok value → next value ≡ other value)
    → (call >>= next) ≡ (call >>= other)
bind_congr panic next other h = refl
bind_congr err next other h = refl
bind_congr (ok value) next other h = h value refl

-- What holds of the value, if there is one.
abbrev pub Ensures {ℓ} : {A : Type ℓ} → (A → Type 0) → Outcome A → Type 0
Ensures P (ok value) = P value
Ensures P err = Unit
Ensures P panic = Unit

pub Ensures-bind {ℓ κ} :
    {A : Type ℓ} {B : Type κ} (P : A → Type 0) (Q : B → Type 0) (call : Outcome A)
    (next : A → Outcome B)
    → Ensures P call
    → ((value : A) → P value → Ensures Q (next value))
    → Ensures Q (call >>= next)
Ensures-bind P Q (ok value) next h f = f value h
Ensures-bind P Q err next h f = tt
Ensures-bind P Q panic next h f = tt

pub Ensures-any {ℓ} : {A : Type ℓ} (call : Outcome A) → Ensures (λ _. Unit) call
Ensures-any (ok value) = tt
Ensures-any err = tt
Ensures-any panic = tt

pub Ensures-ok {ℓ} :
    {A : Type ℓ} (P : A → Type 0) (call : Outcome A) (value : A)
    → Ensures P call
    → call ≡ ok value
    → P value
Ensures-ok P call value h e = rw e at h

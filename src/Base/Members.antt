-- ===== src/Base/Members.antt =====
-- Membership in lists of texts, and lists without repetition.
use mathlib.Core.Path.{◌≡◌, refl}
use mathlib.Core.Bool.{Bool, true}
use mathlib.Core.Logic.{◌↔◌, ◌⊎◌, ◌≢◌, inl, inr}
use mathlib.Core.List.{List, [], ◌∷◌, ◌++◌}
use native.Mathlib.Omega.{arith}
use kompose.Base.Tests.{Bool-cases}
use kompose.Base.Lists.{All, In, AllDistinct, filter}
use kompose.Base.Strings.{Text}

-- A text is new to a list that it does not occur in.
pub All-In : (n : Text) (ns : List Text) → All (λ m. n ≢ m) ns ↔ (In n ns → ⊥)
All-In n [] = (λ _ i. absurd i, λ _. tt)
All-In n (m ∷ ns) = ground (arith, All-In n ns)

pub In-append : (n : Text) (ms ns : List Text) → In n (ms ++ ns) ↔ (In n ms ⊎ In n ns)
In-append n [] ns = ground arith
In-append n (m ∷ ms) ns = ground (arith, In-append n ms ns)

pub In-filter :
    (p : Text → Bool) (n : Text) (ns : List Text) → In n (filter p ns) ↔ (In n ns × (p n ≡ true))
In-filter p n [] = (λ i. absurd i, λ i. absurd i.0)
In-filter p n (m ∷ ns) = ground (arith, In-filter p n ns, Bool-cases (p m), Bool-cases (p n))

pub filter-AllDistinct :
    (p : Text → Bool) (ns : List Text) → AllDistinct ns → AllDistinct (filter p ns)
filter-AllDistinct p [] h = tt
filter-AllDistinct p (n ∷ ns) h =
    ground
      (arith, filter-AllDistinct p ns h.1, All-In n ns, All-In n (filter p ns), In-filter p n ns)

pub append-AllDistinct :
    (ms ns : List Text)
    → AllDistinct ms
    → AllDistinct ns
    → ((n : Text) → In n ns → In n ms → ⊥)
    → AllDistinct (ms ++ ns)
append-AllDistinct [] ns hm hn apart = hn
append-AllDistinct (m ∷ ms) ns hm hn apart = (
  (All-In m (ms ++ ns)).1 (λ i. new ((In-append m ms ns).0 i)),
  append-AllDistinct ms ns hm.1 hn (λ n i j. apart n i (inr j)),
)
  where
    new : In m ms ⊎ In m ns → ⊥
    new (inl i) = (All-In m ms).0 hm.0 i
    new (inr i) = apart m i (inl refl)

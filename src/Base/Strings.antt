-- ===== src/Base/Strings.antt =====
-- Go strings as lists of bytes, and what the source uses of package strings. Case mapping is that
-- of ASCII.
use Prim.Native.Nat.{ℕ, ◌+◌, ◌-◌}
use Prim.Native.Char.{code}
use Prim.Native.String.{String}
use mathlib.Core.Path.{◌≡◌, refl}
use mathlib.Core.Logic.{◌↔◌, ◌≢◌}
use mathlib.Core.Bool.{Bool, true, false, ◌&&◌}
use mathlib.Core.List.{List, [], ◌∷◌, ◌++◌, map, append_assoc, append-nil}
use native.Mathlib.Omega.{arith}
use kompose.Base.Tests.{leb, nat_eq, if◌then◌else◌}
use kompose.Base.Lists.{All, All-append}

abbrev pub Text : Type 0
Text = List ℕ

-- The bytes of an ASCII literal.
abbrev pub codes : String → Text
codes String.[] = []
codes (String.◌∷◌ c s) = code c ∷ codes s

infix 50 ◌==◌
unfoldable pub ◌==◌ : Text → Text → Bool
[] == [] = true
[] == (y ∷ t) = false
(x ∷ s) == [] = false
(x ∷ s) == (y ∷ t) = nat_eq x y && (s == t)

pub ==_iff : (s t : Text) → ((s == t) ≡ true) ↔ (s ≡ t)
unfolding ◌==◌
==_iff [] [] = (λ _. refl, λ _. refl)
==_iff [] (y ∷ t) = (λ h. cc, λ h. cc)
==_iff (x ∷ s) [] = (λ h. cc, λ h. cc)
==_iff (x ∷ s) (y ∷ t) = ground (arith, ==_iff s t)

pub ==_refl : (s : Text) → (s == s) ≡ true
==_refl s = (==_iff s s).1 refl

-- strings.Contains(s, string(c))
unfoldable pub contains : ℕ → Text → Bool
contains c [] = false
contains c (x ∷ s) = if nat_eq x c then true else contains c s

-- strings.HasPrefix(s, p)
unfoldable pub has_prefix : Text → Text → Bool
has_prefix s [] = true
has_prefix [] (c ∷ p) = false
has_prefix (x ∷ s) (c ∷ p) = nat_eq x c && has_prefix s p

-- s[len(p):], where p is a prefix of s
unfoldable pub strip : Text → Text → Text
strip s [] = s
strip [] (c ∷ p) = []
strip (x ∷ s) (c ∷ p) = strip s p

-- strings.TrimPrefix(s, p)
unfoldable pub trim_prefix : Text → Text → Text
trim_prefix s p = if has_prefix s p then strip s p else s

-- What strings.Split(s, string(sep)) does behind the part that it is reading.
unfoldable pub split_from : ℕ → Text → Text → List Text
split_from sep [] cur = cur ∷ []
split_from sep (x ∷ s) cur = elim (nat_eq x sep) [
  | true ↦ cur ∷ split_from sep s []
  | false ↦ split_from sep s (cur ++ x ∷ [])
]

-- strings.Split(s, string(sep))
unfoldable pub split : Text → ℕ → List Text
unfolding split_from
split s sep = split_from sep s []

-- strings.Join(parts, string(sep))
unfoldable pub join : List Text → ℕ → Text
join [] sep = []
join (p ∷ []) sep = p
join (p ∷ q ∷ ps) sep = p ++ sep ∷ join (q ∷ ps) sep

unfoldable pub to_lower : ℕ → ℕ
to_lower c = if leb b'A' c && leb c b'Z' then c + 32 else c

unfoldable pub to_upper : ℕ → ℕ
to_upper c = if leb b'a' c && leb c b'z' then c - 32 else c

-- strings.ToLower and strings.ToUpper, on ASCII
unfoldable pub lower : Text → Text
unfolding to_lower
lower s = map to_lower s

unfoldable pub upper : Text → Text
unfolding to_upper
upper s = map to_upper s

-- strings.Replace(s, string(old), string(new), -1)
unfoldable pub replace : ℕ → ℕ → Text → Text
replace old new s = map (λ c. if nat_eq c old then new else c) s

-- The bytes behind the leading ones of the cutset.
unfoldable pub trim_left : (ℕ → Bool) → Text → Text
trim_left p [] = []
trim_left p (c ∷ s) = if p c then trim_left p s else c ∷ s

unfoldable pub trim_right : (ℕ → Bool) → Text → Text
trim_right p [] = []
trim_right p (c ∷ s) =
    let rest = trim_right p s in elim rest [ [] ↦ if p c then [] else c ∷ [] | d ∷ r ↦ c ∷ d ∷ r ]

-- strings.Trim with the cutset `p`
unfoldable pub trim : (ℕ → Bool) → Text → Text
unfolding trim_left trim_right
trim p s = trim_right p (trim_left p s)

-- The byte occurs nowhere in the text.
abbrev pub Lacks : ℕ → Text → Type 0
Lacks c = All (λ x. x ≢ c)

pub contains-Lacks : (c : ℕ) (s : Text) → contains c s ≡ false → Lacks c s
unfolding contains
contains-Lacks c [] h = tt
contains-Lacks c (x ∷ s) h = ground (arith, contains-Lacks c s)

pub Lacks-contains : (c : ℕ) (s : Text) → Lacks c s → contains c s ≡ false
unfolding contains
Lacks-contains c [] h = refl
Lacks-contains c (x ∷ s) (hx, hs) = ground (arith, Lacks-contains c s hs)

split_from-Lacks : (sep : ℕ) (s cur : Text) → Lacks sep s → split_from sep s cur ≡ (cur ++ s) ∷ []
unfolding split_from
split_from-Lacks sep [] cur h = rw append-nil
split_from-Lacks sep (x ∷ s) cur (hx, hs) =
    ground (arith, split_from-Lacks sep s (cur ++ x ∷ []) hs, append_assoc cur (x ∷ []) s)

split_from-append :
    (sep : ℕ) (p s cur : Text)
    → Lacks sep p
    → split_from sep (p ++ sep ∷ s) cur ≡ (cur ++ p) ∷ split_from sep s []
unfolding split_from
split_from-append sep [] s cur h = rw append-nil (ground arith)
split_from-append sep (x ∷ p) s cur (hx, hp) =
    ground (arith, split_from-append sep p s (cur ++ x ∷ []) hp, append_assoc cur (x ∷ []) p)

-- A text without the separator is one part.
pub split-Lacks : (s : Text) (sep : ℕ) → Lacks sep s → split s sep ≡ s ∷ []
unfolding split
split-Lacks s sep h = split_from-Lacks sep s [] h

-- The part before the first separator comes off.
pub split-append : (p s : Text) (sep : ℕ) → Lacks sep p → split (p ++ sep ∷ s) sep ≡ p ∷ split s sep
unfolding split
split-append p s sep h = split_from-append sep p s [] h

split_from-cons :
    (sep : ℕ) (s cur : Text) → (p : Text) × (ps : List Text) × (split_from sep s cur ≡ p ∷ ps)
unfolding split_from
split_from-cons sep [] cur = (cur, [], refl)
split_from-cons sep (x ∷ s) cur =
    let (p, ps, e) = split_from-cons sep s (cur ++ x ∷ []) in
    elim (nat_eq x sep)
      as (λ b.
        (q : Text) × (qs : List Text) × ((elim b [
          | true ↦ cur ∷ split_from sep s []
          | false ↦ split_from sep s (cur ++ x ∷ [])
        ])
          ≡ q ∷ qs)) [ true ↦ (cur, split_from sep s [], refl) | false ↦ (p, ps, e) ]

-- A split has at least one part.
pub split-cons : (s : Text) (sep : ℕ) → (p : Text) × (ps : List Text) × (split s sep ≡ p ∷ ps)
unfolding split
split-cons s sep = split_from-cons sep s []

join-split_from : (sep : ℕ) (s cur : Text) → join (split_from sep s cur) sep ≡ cur ++ s
unfolding join split_from
join-split_from sep [] cur = rw append-nil
join-split_from sep (x ∷ s) cur =
    let (p, ps, e) = split_from-cons sep s [] in
    ground (
      arith,
      e,
      join-split_from sep s [],
      join-split_from sep s (cur ++ x ∷ []),
      append_assoc cur (x ∷ []) s,
    )

-- Joining the parts of a split gives the text back.
pub join-split : (s : Text) (sep : ℕ) → join (split s sep) sep ≡ s
unfolding split
join-split s sep = join-split_from sep s []

pub to_lower_idem : (c : ℕ) → to_lower (to_lower c) ≡ to_lower c
unfolding to_lower
to_lower_idem c = ground arith

pub lower_idem : (s : Text) → lower (lower s) ≡ lower s
unfolding lower
lower_idem [] = refl
lower_idem (c ∷ s) = cc (to_lower_idem c, lower_idem s)

-- Splitting a join gives the parts back, if there is a part and none holds the separator.
pub split-join :
    (p : Text) (ps : List Text) (sep : ℕ)
    → Lacks sep p
    → All (Lacks sep) ps
    → split (join (p ∷ ps) sep) sep ≡ p ∷ ps
unfolding join
split-join p [] sep hp _ = split-Lacks p sep hp
split-join p (q ∷ ps) sep hp (hq, hps) =
    rw (split-append p (join (q ∷ ps) sep) sep hp, split-join q ps sep hq hps)

pub join-Lacks : (c sep : ℕ) (ps : List Text) → sep ≢ c → All (Lacks c) ps → Lacks c (join ps sep)
unfolding join
join-Lacks c sep [] h _ = tt
join-Lacks c sep (p ∷ []) h (hp, _) = hp
join-Lacks c sep (p ∷ q ∷ ps) h (hp, hq) =
    All-append _ p (sep ∷ join (q ∷ ps) sep) hp (h, join-Lacks c sep (q ∷ ps) h hq)

pub contains-middle : (c : ℕ) (p s : Text) → contains c (p ++ c ∷ s) ≡ true
unfolding contains
contains-middle c [] s = ground arith
contains-middle c (x ∷ p) s = ground (arith, contains-middle c p s)

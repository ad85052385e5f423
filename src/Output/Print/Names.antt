-- ===== src/Output/Print/Names.antt =====
-- The names of the files that Print makes.
use mathlib.Core.List.{append_cancel_right}
use kompose.Base.{
  ℕ, ◌≡◌, sym, Bool, true, [], ◌∷◌, ◌++◌, Text, arith, Lacks, contains, contains-middle,
  Lacks-contains,
}
use kompose.Output.Print.{file_name}

dash_inside : (m k l : Text) (c : ℕ) → Lacks b'-' k → b'-' ∷ k ≡ c ∷ (m ++ b'-' ∷ l) → ⊥
dash_inside m k l c hk e =
    let inside : k ≡ m ++ b'-' ∷ l = ground arith in
    let found : contains b'-' k ≡ true = rw inside (contains-middle b'-' m l) in
    cc (found, Lacks-contains b'-' k hk)

-- A dash splits a text once if none stands behind it.
dash_split :
    (n m k l : Text)
    → Lacks b'-' k
    → Lacks b'-' l
    → n ++ b'-' ∷ k ≡ m ++ b'-' ∷ l
    → (n ≡ m) × (k ≡ l)
dash_split [] [] k l hk hl e = ground arith
dash_split [] (c ∷ m) k l hk hl e = absurd (dash_inside m k l c hk e)
dash_split (c ∷ n) [] k l hk hl e = absurd (dash_inside n l k c hl (sym e))
dash_split (c ∷ n) (d ∷ m) k l hk hl e = ground (arith, dash_split n m k l hk hl)

-- Objects whose kinds hold no dash are written to one file only if they agree in name and kind.
pub file_name-injective :
    (n m k l : Text) (json : Bool)
    → Lacks b'-' k
    → Lacks b'-' l
    → file_name n k json ≡ file_name m l json
    → (n ≡ m) × (k ≡ l)
unfolding file_name
file_name-injective n m k l json hk hl e =
    dash_split n m k l hk hl (append_cancel_right (n ++ b'-' ∷ k) (m ++ b'-' ∷ l) _ e)

-- ===== src/Output/Json.antt =====
-- removeEmptyInterfaces of pkg/transformer/kubernetes/k8sutils.go, over the values that the YAML
-- library makes of a JSON text. The loop over a slice runs over the slice as it was at the start, and
-- a removal moves the elements behind it in the same array: the loop is the one of the source, with
-- the array, the index and the length that the slice has left.
mod Slices
mod Holes
mod Clean
mod Tests
use kompose.Base.{
  ℕ, zero, suc, ◌-◌, Bool, true, false, Option, none, some, List, [], ◌∷◌, Text, length, get_elem?,
  ltb, if◌then◌else◌,
}

-- interface{}: nil, a text or a number or a truth value as it is written, a slice and a map.
mutual
  pub data Value : Type 0 where
    null : Value
    scalar : Text → Value
    slice : Items → Value
    mapping : Fields → Value

  pub data Items : Type 0 where
    nil : Items
    cons : Value → Items → Items

  pub data Fields : Type 0 where
    end : Fields
    field : Text → Value → Fields → Fields

-- `none` is a panic.
infixl 5 ◌>>=◌
abbrev pub ◌>>=◌ : {A B : Type 0} → Option A → (A → Option B) → Option B
none >>= next = none
some value >>= next = next value

-- nil or a map without keys, which the loop over a slice takes out
abbrev pub is_removed : Value → Bool
is_removed null = true
is_removed (mapping end) = true
is_removed v = false

-- nil, a map without keys or a slice without elements, which the loop over a map deletes
abbrev pub is_deleted : Value → Bool
is_deleted null = true
is_deleted (mapping end) = true
is_deleted (slice nil) = true
is_deleted v = false

-- An element of the array with what the recursive call makes of it.
abbrev pub Cell : Type 0
Cell = Value × Option Value

-- v[i] = x
abbrev pub set_cell : ℕ → Value → List Cell → List Cell
set_cell i x [] = []
set_cell zero x (c ∷ cs) = (x, some x) ∷ cs
set_cell (suc i) x (c ∷ cs) = c ∷ set_cell i x cs

-- append(v[:i], v[i+1:]...) moves elements i+1 to len-1 one to the left in the array.
unfoldable pub shift_left : ℕ → ℕ → List Cell → List Cell
shift_left i zero cs = cs
shift_left i (suc len) [] = []
shift_left zero (suc zero) (c ∷ cs) = c ∷ cs
shift_left zero (suc (suc len)) (c ∷ []) = c ∷ []
shift_left zero (suc (suc len)) (c ∷ d ∷ cs) = d ∷ shift_left zero (suc len) (d ∷ cs)
shift_left (suc i) (suc len) (c ∷ cs) = c ∷ shift_left i len cs

-- The first `len` elements of the array.
unfoldable pub items_of : ℕ → List Cell → Items
items_of zero cs = nil
items_of (suc len) [] = nil
items_of (suc len) ((v, made) ∷ cs) = cons v (items_of len cs)

-- The loop from index `i` on, with so many rounds left and a slice of length `len`; slicing and
-- writing behind the length panic.
unfoldable pub slice_loop : ℕ → ℕ → ℕ → List Cell → Option Items
unfolding items_of shift_left
slice_loop zero i len cs = some (items_of len cs)
slice_loop (suc rounds) i len cs = elim (get_elem? cs i) [
  | none ↦ none
  | some (v, made) ↦
      let removed = slice_loop rounds (suc i) (len - 1) (shift_left i len cs) in
      let written = λ (x : Value). slice_loop rounds (suc i) len (set_cell i x cs) in
      if is_removed v
      then if ltb i len then removed else none
      else made >>= λ x. if ltb i len then written x else none
]

unfoldable mutual
  unfolding slice_loop

  pub remove_empty_interfaces : Value → Option Value
  remove_empty_interfaces null = some null
  remove_empty_interfaces (scalar t) = some (scalar t)
  remove_empty_interfaces (slice xs) =
      let cs : List Cell = cells_of xs in
      slice_loop (length cs) 0 (length cs) cs >>= λ ys. some (slice ys)
  remove_empty_interfaces (mapping fs) = remove_empty_fields fs >>= λ gs. some (mapping gs)

  pub cells_of : Items → List Cell
  cells_of nil = []
  cells_of (cons x xs) = (x, remove_empty_interfaces x) ∷ cells_of xs

  -- The loop over a map: what nothing is left of is deleted.
  pub remove_empty_fields : Fields → Option Fields
  remove_empty_fields end = some end
  remove_empty_fields (field key v fs) = remove_empty_interfaces v >>= λ x.
      remove_empty_fields fs >>= λ gs. some (if is_deleted x then gs else field key x gs)

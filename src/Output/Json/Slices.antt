-- ===== src/Output/Json/Slices.antt =====
-- What the loop of removeEmptyInterfaces over a slice comes to: with an element to remove in front of
-- another it runs behind the end of the shortened slice.
use kompose.Base.{
  ℕ, zero, suc, ◌+◌, ◌-◌, ◌<◌, ◌≡◌, refl, ap, sym, ◌∙◌, append-nil, true, false, List, [], ◌∷◌,
  ◌++◌, Option, none, some, arith, length, get_elem?, ltb, Bool-cases, Option-cases, inl, inr,
  length-append, if◌then◌else◌,
}
use kompose.Output.Json.{
  ◌>>=◌, Value, Items, nil, cons, Cell, is_removed, set_cell, shift_left, items_of, slice_loop,
}

-- Every element is cleaned; one that is to be removed may stand at the end only.
unfoldable pub clean_cells : List Cell → Option Items
clean_cells [] = some nil
clean_cells ((v, made) ∷ []) = if is_removed v then some nil else (made >>= λ x. some (cons x nil))
clean_cells ((v, made) ∷ c ∷ cs) =
    let rest = clean_cells (c ∷ cs) in
    if is_removed v then none else (made >>= λ x. rest >>= λ xs. some (cons x xs))

length-shift_left : (i len : ℕ) (cs : List Cell) → length (shift_left i len cs) ≡ length cs
unfolding shift_left
length-shift_left i zero cs = refl
length-shift_left i (suc len) [] = refl
length-shift_left zero (suc zero) (c ∷ cs) = refl
length-shift_left zero (suc (suc len)) (c ∷ []) = refl
length-shift_left zero (suc (suc len)) (c ∷ d ∷ cs) =
    ap suc (length-shift_left zero (suc len) (d ∷ cs))
length-shift_left (suc i) (suc len) (c ∷ cs) = ap suc (length-shift_left i len cs)

length-set_cell : (i : ℕ) (x : Value) (cs : List Cell) → length (set_cell i x cs) ≡ length cs
length-set_cell i x [] = refl
length-set_cell zero x (c ∷ cs) = refl
length-set_cell (suc i) x (c ∷ cs) = ap suc (length-set_cell i x cs)

get_elem?-lt :
    (cs : List Cell) (i : ℕ)
    → i < length cs
    → (v : Value) × (made : Option Value) × (get_elem? cs i ≡ some (v, made))
get_elem?-lt [] i h = absurd (omega arith)
get_elem?-lt ((v, made) ∷ cs) zero h = (v, made, refl)
get_elem?-lt (c ∷ cs) (suc i) h = get_elem?-lt cs i (omega arith)

-- One round, at an element of the array.
slice_loop-suc :
    (rounds i len : ℕ) (cs : List Cell) {v : Value} {made : Option Value}
    → get_elem? cs i ≡ some (v, made)
    → slice_loop (suc rounds) i len cs ≡ (
        if is_removed v
        then (if ltb i len then slice_loop rounds (suc i) (len - 1) (shift_left i len cs) else none)
        else (made >>= λ x.
            if ltb i len then slice_loop rounds (suc i) len (set_cell i x cs) else none))
unfolding slice_loop
slice_loop-suc rounds i len cs at = rw (at, slice_loop)

-- Once the slice is shorter than the array, the last round panics.
slice_loop-shortened :
    (rounds i len : ℕ) (cs : List Cell)
    → i + suc rounds ≡ length cs
    → len < length cs
    → slice_loop (suc rounds) i len cs ≡ none
slice_loop-shortened zero i len cs e h =
    let (v, made, at) = get_elem?-lt cs i (omega arith) in
    rw (slice_loop-suc 0 i len cs at)
      (elim (Option-cases made) [ inl m ↦ ground arith | inr (x, m) ↦ ground arith ])
slice_loop-shortened (suc rounds) i len cs e h =
    let (v, made, at) = get_elem?-lt cs i (omega arith) in
    let removed : slice_loop (suc rounds) (suc i) (len - 1) (shift_left i len cs) ≡ none =
      slice_loop-shortened rounds (suc i) (len - 1) (shift_left i len cs)
        (omega (arith, length-shift_left i len cs)) (omega (arith, length-shift_left i len cs)) in
    let written : (x : Value) → slice_loop (suc rounds) (suc i) len (set_cell i x cs) ≡ none = λ x.
      slice_loop-shortened rounds (suc i) len (set_cell i x cs)
        (omega (arith, length-set_cell i x cs)) (omega (arith, length-set_cell i x cs)) in
    rw (slice_loop-suc (suc rounds) i len cs at) (elim (Option-cases made) [
      | inl m ↦ ground (arith, removed)
      | inr (x, m) ↦ ground (arith, removed, written x)
    ])

-- The elements of the array in front of a list.
abbrev put_front : List Cell → Items → Items
put_front [] xs = xs
put_front ((v, made) ∷ cs) xs = cons v (put_front cs xs)

put_front-snoc :
    (cs : List Cell) (x : Value) (made : Option Value) (xs : Items)
    → put_front (cs ++ (x, made) ∷ []) xs ≡ put_front cs (cons x xs)
put_front-snoc [] x made xs = refl
put_front-snoc ((v, m) ∷ cs) x made xs = ap (cons v) (put_front-snoc cs x made xs)

items_of-append : (cs ds : List Cell) → items_of (length cs) (cs ++ ds) ≡ put_front cs nil
unfolding items_of
items_of-append [] ds = refl
items_of-append ((v, made) ∷ cs) ds = ap (cons v) (items_of-append cs ds)

items_of-shift_left :
    (cs : List Cell) (c : Cell)
    → items_of (length cs) (shift_left (length cs) (suc (length cs)) (cs ++ c ∷ []))
      ≡ put_front cs nil
unfolding items_of shift_left
items_of-shift_left [] c = refl
items_of-shift_left ((v, made) ∷ cs) c = ap (cons v) (items_of-shift_left cs c)

set_cell-middle :
    (cs ds : List Cell) (c : Cell) (x : Value)
    → set_cell (length cs) x (cs ++ c ∷ ds) ≡ (cs ++ (x, some x) ∷ []) ++ ds
set_cell-middle [] ds c x = refl
set_cell-middle (d ∷ cs) ds c x = ap (λ t. d ∷ t) (set_cell-middle cs ds c x)

get_elem?-middle : (cs ds : List Cell) (c : Cell) → get_elem? (cs ++ c ∷ ds) (length cs) ≡ some c
get_elem?-middle [] ds c = refl
get_elem?-middle (d ∷ cs) ds c = get_elem?-middle cs ds c

slice_loop-zero : (i len : ℕ) (cs : List Cell) → slice_loop zero i len cs ≡ some (items_of len cs)
unfolding slice_loop
slice_loop-zero i len cs = refl

-- A round whose element is written.
slice_loop-kept :
    (rounds : ℕ) (front todo : List Cell) (v x : Value)
    → is_removed v ≡ false
    → slice_loop
        (suc rounds)
        (length front)
        (length (front ++ (v, some x) ∷ todo))
        (front ++ (v, some x) ∷ todo)
      ≡ (let front' = front ++ (x, some x) ∷ [] in
          slice_loop rounds (length front') (length (front' ++ todo)) (front' ++ todo))
slice_loop-kept rounds front todo v x r =
    let at = get_elem?-middle front todo (v, some x) in
    let below : ltb (length front) (length (front ++ (v, some x) ∷ todo)) ≡ true =
      ground (arith, length-append front ((v, some x) ∷ todo)) in
    let next : length (front ++ (x, some x) ∷ []) ≡ suc (length front) =
      omega (arith, length-append front ((x, some x) ∷ [])) in
    let same : length ((front ++ (x, some x) ∷ []) ++ todo) ≡ length (front ++ (v, some x) ∷ todo) =
      omega (
        arith,
        length-append (front ++ (x, some x) ∷ []) todo,
        length-append front ((v, some x) ∷ todo),
      ) in
    rw (slice_loop-suc rounds _ _ _ at)
      (rw r (rw below (rw (next, same, set_cell-middle front todo (v, some x) x) refl)))

slice_loop-failed :
    (rounds : ℕ) (front todo : List Cell) (len : ℕ) (v : Value)
    → is_removed v ≡ false
    → slice_loop (suc rounds) (length front) len (front ++ (v, none) ∷ todo) ≡ none
slice_loop-failed rounds front todo len v r =
    rw (slice_loop-suc rounds _ len _ (get_elem?-middle front todo (v, none))) (rw r refl)

slice_loop-removed_last :
    (front : List Cell) (v : Value) (made : Option Value)
    → is_removed v ≡ true
    → slice_loop 1 (length front) (length (front ++ (v, made) ∷ [])) (front ++ (v, made) ∷ [])
      ≡ some (put_front front nil)
slice_loop-removed_last front v made r =
    let at = get_elem?-middle front [] (v, made) in
    let long : length (front ++ (v, made) ∷ []) ≡ suc (length front) =
      omega (arith, length-append front ((v, made) ∷ [])) in
    let below : ltb (length front) (suc (length front)) ≡ true = ground arith in
    let less : suc (length front) - 1 ≡ length front = omega arith in
    rw (slice_loop-suc 0 _ _ _ at) (
      rw r (
        rw long (
          rw below
            (rw less (slice_loop-zero _ _ _ ∙ ap some (items_of-shift_left front (v, made)))))))

slice_loop-removed :
    (front cs : List Cell) (c : Cell) (v : Value) (made : Option Value)
    → is_removed v ≡ true
    → slice_loop
        (suc (length (c ∷ cs)))
        (length front)
        (length (front ++ (v, made) ∷ c ∷ cs))
        (front ++ (v, made) ∷ c ∷ cs)
      ≡ none
slice_loop-removed front cs c v made r =
    let all = front ++ (v, made) ∷ c ∷ cs in
    let at = get_elem?-middle front (c ∷ cs) (v, made) in
    let long : length all ≡ length front + suc (suc (length cs)) =
      omega (arith, length-append front ((v, made) ∷ c ∷ cs)) in
    let below : ltb (length front) (length all) ≡ true = ground (arith, long) in
    rw (slice_loop-suc _ _ _ _ at) (
      rw r (
        rw below (
          slice_loop-shortened (length cs) _ (length all - 1)
            (shift_left (length front) (length all) all)
            (omega (arith, length-shift_left (length front) (length all) all))
            (omega (arith, length-shift_left (length front) (length all) all)))))

-- The loop behind the elements that it has written.
slice_loop-front :
    (todo front : List Cell)
    → slice_loop (length todo) (length front) (length (front ++ todo)) (front ++ todo)
      ≡ (clean_cells todo >>= λ xs. some (put_front front xs))
unfolding clean_cells
slice_loop-front [] front = rw (append-nil front) (
    slice_loop-zero _ _ _
    ∙ ap some (ap (items_of (length front)) (sym (append-nil front)) ∙ items_of-append front []))
slice_loop-front ((v, none) ∷ []) front = elim (Bool-cases (is_removed v)) [
  | inl r ↦ rw r (slice_loop-removed_last front v none r)
  | inr r ↦ rw r (slice_loop-failed 0 front [] _ v r)
]
slice_loop-front ((v, some x) ∷ []) front = elim (Bool-cases (is_removed v)) [
  | inl r ↦ rw r (slice_loop-removed_last front v (some x) r)
  | inr r ↦ rw r (
      slice_loop-kept 0 front [] v x r
      ∙ slice_loop-front [] (front ++ (x, some x) ∷ [])
      ∙ ap some (put_front-snoc front x (some x) nil))
]
slice_loop-front ((v, none) ∷ c ∷ cs) front = elim (Bool-cases (is_removed v)) [
  | inl r ↦ rw r (slice_loop-removed front cs c v none r)
  | inr r ↦ rw r (slice_loop-failed _ front (c ∷ cs) _ v r)
]
slice_loop-front ((v, some x) ∷ c ∷ cs) front = elim (Bool-cases (is_removed v)) [
  | inl r ↦ rw r (slice_loop-removed front cs c v (some x) r)
  | inr r ↦ rw r (
      slice_loop-kept _ front (c ∷ cs) v x r
      ∙ slice_loop-front (c ∷ cs) (front ++ (x, some x) ∷ [])
      ∙ later (clean_cells (c ∷ cs)))
]
  where
    later :
        (rest : Option Items)
        → (rest >>= λ xs. some (put_front (front ++ (x, some x) ∷ []) xs))
          ≡ ((rest >>= λ xs. some (cons x xs)) >>= λ xs. some (put_front front xs))
    later none = refl
    later (some xs) = ap some (put_front-snoc front x (some x) xs)

-- The loop over a slice cleans its elements, and panics where one that is to be removed stands in
-- front of another.
pub slice_loop-clean_cells :
    (cs : List Cell) → slice_loop (length cs) 0 (length cs) cs ≡ clean_cells cs
slice_loop-clean_cells cs = slice_loop-front cs [] ∙ same (clean_cells cs)
  where
    same : (made : Option Items) → (made >>= λ xs. some xs) ≡ made
    same none = refl
    same (some xs) = refl

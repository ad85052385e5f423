-- ===== src/Output/Json/Holes.antt =====
-- removeEmptyInterfaces against an independent description of what it does.
use kompose.Base.{◌≡◌, refl, Bool, true, false, ◌||◌, none, some, arith, if◌then◌else◌}
use kompose.Output.Json.{
  Value, null, scalar, slice, mapping, Items, nil, cons, Fields, end, field, is_removed, is_deleted,
  cells_of, remove_empty_interfaces, remove_empty_fields,
}
use kompose.Output.Json.Slices.{clean_cells, slice_loop-clean_cells}

-- Some slice in the value has nil or a map without keys in front of another element.
unfoldable mutual
  pub has_hole : Value → Bool
  has_hole null = false
  has_hole (scalar t) = false
  has_hole (slice xs) = hole_in_items xs
  has_hole (mapping fs) = hole_in_fields fs

  pub hole_in_items : Items → Bool
  hole_in_items nil = false
  hole_in_items (cons x nil) = has_hole x
  hole_in_items (cons x (cons y ys)) = is_removed x || has_hole x || hole_in_items (cons y ys)

  pub hole_in_fields : Fields → Bool
  hole_in_fields end = false
  hole_in_fields (field key v fs) = has_hole v || hole_in_fields fs

-- The value without the last element of a slice where it is nil or a map without keys, and without
-- the fields that nothing is left of.
unfoldable mutual
  pub pruned : Value → Value
  pruned null = null
  pruned (scalar t) = scalar t
  pruned (slice xs) = slice (pruned_items xs)
  pruned (mapping fs) = mapping (pruned_fields fs)

  pub pruned_items : Items → Items
  pruned_items nil = nil
  pruned_items (cons x nil) = if is_removed x then nil else cons (pruned x) nil
  pruned_items (cons x (cons y ys)) = cons (pruned x) (pruned_items (cons y ys))

  pub pruned_fields : Fields → Fields
  pruned_fields end = end
  pruned_fields (field key v fs) =
      let gs = pruned_fields fs in if is_deleted (pruned v) then gs else field key (pruned v) gs

removed-has_hole : (v : Value) → is_removed v ≡ true → has_hole v ≡ false
unfolding has_hole
removed-has_hole null r = refl
removed-has_hole (scalar t) r = refl
removed-has_hole (slice xs) r = cc
removed-has_hole (mapping end) r = refl
removed-has_hole (mapping (field key v fs)) r = cc

mutual
  unfolding has_hole pruned remove_empty_interfaces clean_cells

  described :
      (v : Value) → remove_empty_interfaces v ≡ (if has_hole v then none else some (pruned v))
  described null = refl
  described (scalar t) = refl
  described (slice xs) =
      rw (slice_loop-clean_cells (cells_of xs)) (ground (arith, described_items xs))
  described (mapping fs) = ground (arith, described_fields fs)

  described_items :
      (xs : Items)
      → clean_cells (cells_of xs) ≡ (if hole_in_items xs then none else some (pruned_items xs))
  described_items nil = refl
  described_items (cons x nil) = ground (arith, described x, removed-has_hole x)
  described_items (cons x (cons y ys)) = ground (arith, described x, described_items (cons y ys))

  described_fields :
      (fs : Fields)
      → remove_empty_fields fs ≡ (if hole_in_fields fs then none else some (pruned_fields fs))
  described_fields end = refl
  described_fields (field key v fs) = ground (arith, described v, described_fields fs)

-- The recursion over a value panics exactly where some slice has nil or a map without keys in front
-- of another element; else it drops such an element at the end of a slice, and deletes the fields of
-- a map that nothing is left of, at every depth.
pub remove_empty_interfaces-pruned :
    (v : Value) → remove_empty_interfaces v ≡ (if has_hole v then none else some (pruned v))
remove_empty_interfaces-pruned v = described v

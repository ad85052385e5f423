-- ===== src/Output/Json/Clean.antt =====
-- What removeEmptyInterfaces leaves.
use kompose.Base.{◌≡◌, refl, Bool, true, ◌&&◌, not, some, arith}
use kompose.Output.Json.{
  Value, null, scalar, slice, mapping, Items, nil, cons, Fields, end, field, is_deleted,
  remove_empty_interfaces,
}
use kompose.Output.Json.Holes.{pruned, pruned_items, pruned_fields, remove_empty_interfaces-pruned}

-- No field of a map, at any depth, is nil, a map without keys or a slice without elements.
mutual
  pub is_clean : Value → Bool
  is_clean null = true
  is_clean (scalar t) = true
  is_clean (slice xs) = clean_items xs
  is_clean (mapping fs) = clean_fields fs

  clean_items : Items → Bool
  clean_items nil = true
  clean_items (cons x xs) = is_clean x && clean_items xs

  clean_fields : Fields → Bool
  clean_fields end = true
  clean_fields (field key v fs) = not (is_deleted v) && is_clean v && clean_fields fs

mutual
  unfolding is_clean pruned

  clean_pruned : (v : Value) → is_clean (pruned v) ≡ true
  clean_pruned null = refl
  clean_pruned (scalar t) = refl
  clean_pruned (slice xs) = clean_pruned_items xs
  clean_pruned (mapping fs) = clean_pruned_fields fs

  clean_pruned_items : (xs : Items) → clean_items (pruned_items xs) ≡ true
  clean_pruned_items nil = refl
  clean_pruned_items (cons x nil) = ground (arith, clean_pruned x)
  clean_pruned_items (cons x (cons y ys)) =
      ground (arith, clean_pruned x, clean_pruned_items (cons y ys))

  clean_pruned_fields : (fs : Fields) → clean_fields (pruned_fields fs) ≡ true
  clean_pruned_fields end = refl
  clean_pruned_fields (field key v fs) = ground (arith, clean_pruned v, clean_pruned_fields fs)

-- Where the recursion returns a value, no field of a map in it, at any depth, is nil, a map without
-- keys or a slice without elements.
pub remove_empty_interfaces-clean :
    (v result : Value) → remove_empty_interfaces v ≡ some result → is_clean result ≡ true
remove_empty_interfaces-clean v result e =
    ground (arith, remove_empty_interfaces-pruned v, clean_pruned v)

-- ===== src/Output/Json/Tests.antt =====
-- Slices with an empty map or nil at the end and before it.
use kompose.Base.{◌≡◌, refl, true, none, some, codes, if◌then◌else◌}
use kompose.Output.Json.{
  Value, null, scalar, slice, mapping, nil, cons, end, field, remove_empty_interfaces,
}
use kompose.Output.Json.Holes.{has_hole, pruned, remove_empty_interfaces-pruned}
use kompose.Output.Json.Clean.{is_clean, remove_empty_interfaces-clean}

abbrev one : Value
one = scalar (codes "1")

last_removed :
    remove_empty_interfaces (slice (cons one (cons (mapping end) nil)))
    ≡ some (slice (cons one nil))
unfolding remove_empty_interfaces
last_removed = refl

first_panics : remove_empty_interfaces (slice (cons null (cons one nil))) ≡ none
unfolding remove_empty_interfaces
first_panics = refl

fields_deleted :
    remove_empty_interfaces (
      mapping (
        field
          (codes "a")
          (mapping (field (codes "b") null end))
          (field (codes "c") (slice (cons null nil)) (field (codes "d") one end))))
    ≡ some (mapping (field (codes "d") one end))
unfolding remove_empty_interfaces
fields_deleted = refl

abbrev holed : Value
holed = slice (cons one (cons (mapping end) (cons one nil)))

abbrev nested : Value
nested = mapping (field (codes "a") (slice (cons (mapping end) nil)) (field (codes "b") one end))

remove_empty_interfaces-pruned_example :
    remove_empty_interfaces holed ≡ (if has_hole holed then none else some (pruned holed))
remove_empty_interfaces-pruned_example = remove_empty_interfaces-pruned holed

holed_panics : remove_empty_interfaces holed ≡ none
unfolding remove_empty_interfaces
holed_panics = refl

nested_pruned : remove_empty_interfaces nested ≡ some (mapping (field (codes "b") one end))
unfolding remove_empty_interfaces
nested_pruned = refl

remove_empty_interfaces-clean_example : is_clean (mapping (field (codes "b") one end)) ≡ true
remove_empty_interfaces-clean_example =
    remove_empty_interfaces-clean nested (mapping (field (codes "b") one end)) nested_pruned

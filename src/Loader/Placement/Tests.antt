-- ===== src/Loader/Placement/Tests.antt =====
-- A constraint on the operating system, and a placement.
use kompose.Base.{
  ◌≡◌, refl, true, false, [], ◌∷◌, ◌++◌, codes, ◌==◌, has_prefix, trim_prefix, strip, Lacks, arith,
}
use kompose.Loader.Placement.{
  convert_docker_label, equal, not_equal, parse_constraint, load_placement,
}
use kompose.Loader.Placement.Constraints.{with_label, parse_constraint_lem}

no_space : Lacks b' ' (codes "node.labels.disk")
no_space = ground arith

value_no_space : Lacks b' ' (codes "ssd")
value_no_space = ground arith

parse_constraint_lem_example :
    (parse_constraint (codes "node.labels.disk" ++ (equal ++ codes "ssd"))
      ≡ with_label (codes "ssd") false (convert_docker_label (codes "node.labels.disk")))
    × (parse_constraint (codes "node.labels.disk" ++ (not_equal ++ codes "ssd"))
        ≡ with_label (codes "ssd") true (convert_docker_label (codes "node.labels.disk")))
parse_constraint_lem_example =
    parse_constraint_lem (codes "node.labels.disk") (codes "ssd") no_space value_no_space

placed :
    load_placement
      (codes "node.labels.disk != ssd" ∷ codes "node.hostname == a" ∷ codes "x == y" ∷ [])
      (codes "node.labels.zone" ∷ [])
    ≡ record {
      positive_constraints = (codes "kubernetes.io/hostname", codes "a") ∷ [];
      negative_constraints = (codes "disk", codes "ssd") ∷ [];
      preferences = codes "zone" ∷ [];
    }
unfolding load_placement ◌==◌ has_prefix trim_prefix strip
placed = refl

-- ===== src/Transformer/Annotations/Kept.antt =====
-- Which annotations a service keeps.
use kompose.Base.{
  ◌≡◌, refl, Bool, true, false, not, none, some, [], ◌∷◌, filter, arith, Text, codes, ◌==◌, ==_iff,
  Bool-cases, inl, inr, join, has_prefix, if◌then◌else◌,
}
use kompose.Base.Dict.{Dict, lookup, insert, lookup-insert}
use kompose.Host.{Host}
use kompose.Kobject.{ServiceConfig}
use kompose.Transformer.Annotations.{version_annotation, kompose_annotations, config_annotations}

lookup-filter :
    (p : Text → Bool) (key : Text) (entries : Dict Text)
    → lookup key (filter (λ e. p e.0) entries) ≡ (if p key then lookup key entries else none)
unfolding lookup
lookup-filter p key [] = ground arith
lookup-filter p key ((first, value) ∷ entries) =
    ground (arith, ==_iff first key, lookup-filter p key entries)

prefixed :
    (word key : Text)
    → has_prefix word (codes "kompose.") ≡ true
    → has_prefix key (codes "kompose.") ≡ false
    → (word == key) ≡ false
prefixed word key h e = elim (Bool-cases (word == key)) [
  | inl i ↦ let j : word ≡ key = (==_iff word key).0 i in ground (arith, h, e, rw j at h)
  | inr i ↦ i
]

lookup-kompose_annotations :
    (host : Host) (annotations : Dict Text) (key : Text)
    → lookup key (kompose_annotations host annotations) ≡ (
        if codes "kompose.version" == key
        then some (version_annotation host)
        else if codes "kompose.cmd" == key
        then some (join host.args b' ')
        else lookup key annotations)
unfolding kompose_annotations
lookup-kompose_annotations host annotations key =
    rw
      (
        lookup-insert (codes "kompose.version") key (version_annotation host)
            (insert (codes "kompose.cmd") (join host.args b' ') annotations),
        lookup-insert (codes "kompose.cmd") key (join host.args b' ') annotations,
      )
      refl

-- Without the option for Kompose's annotations, those that begin with "kompose." are gone, also the
-- user's, and all others are kept; with it, the version and the command are put in place of the
-- user's, and all others are kept.
pub config_annotations-lookup :
    (host : Host) (s : ServiceConfig) (key : Text)
    → lookup key (config_annotations host s) ≡ (
        if s.with_kompose_annotation
        then (if codes "kompose.version" == key
            then some (version_annotation host)
            else if codes "kompose.cmd" == key
            then some (join host.args b' ')
            else lookup key s.annotations)
        else if has_prefix key (codes "kompose.")
        then none
        else lookup key s.annotations)
unfolding config_annotations
config_annotations-lookup host s key = ground (
  arith,
  lookup-kompose_annotations host s.annotations key,
  lookup-filter (λ k. not (has_prefix k (codes "kompose."))) key
      (kompose_annotations host s.annotations),
  prefixed (codes "kompose.version") key (unfold has_prefix in refl),
  prefixed (codes "kompose.cmd") key (unfold has_prefix in refl),
)

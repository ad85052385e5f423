-- ===== src/Transformer/Annotations/Tests.antt =====
-- A service with an annotation that begins with "kompose.".
use kompose.Base.{◌≡◌, refl, none, [], ◌∷◌, codes, ◌==◌, has_prefix, trim, if◌then◌else◌}
use kompose.Base.Dict.{lookup}
use kompose.Host.Samples.{bare_host}
use kompose.Kobject.{ServiceConfig}
use kompose.Kobject.Samples.{bare_service}
use kompose.Transformer.Annotations.{version_annotation, config_annotations}
use kompose.Transformer.Annotations.Kept.{config_annotations-lookup}

abbrev noted : ServiceConfig
noted = record bare_service {
  annotations = (codes "kompose.note", codes "mine") ∷ (codes "team", codes "core") ∷ [];
}

config_annotations-lookup_example :
    lookup (codes "kompose.note") (config_annotations bare_host noted) ≡ (
      if has_prefix (codes "kompose.note") (codes "kompose.")
      then none
      else lookup (codes "kompose.note") noted.annotations)
config_annotations-lookup_example = config_annotations-lookup bare_host noted (codes "kompose.note")

version_test : version_annotation bare_host ≡ codes "1.36.0 (HEAD)"
unfolding version_annotation ◌==◌ trim
version_test = refl

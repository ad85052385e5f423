-- ===== src/Kobject/Project.antt =====
-- KomposeObject of pkg/kobject/kobject.go, the project that the loader hands to a transformer.
use kompose.Base.{Text}
use kompose.Base.Dict.{Dict}
use kompose.Kobject.{ServiceConfig}

-- Of a secret the program reads the file.
pub record KomposeObject : Type 0 where
  pub service_configs : Dict ServiceConfig
  pub loaded_from : Text
  pub secrets : Dict Text
  pub namespace : Text

-- ===== src/Docker/Push.antt =====
-- Which calls of docker a push makes.
use kompose.Base.{◌≡◌, ◌≢◌, some, ◌⊎◌, [], ◌∷◌, ◌++◌, Text, ◌==◌, if◌then◌else◌}
use kompose.Base.Outcome.{Outcome}
use kompose.Kobject.{ServiceConfig, ConvertOptions}
use kompose.Docker.{Image, Docker, Log, tag, push}

module _ (docker : Docker) where
  -- The image was pushed, behind the call that tags it where a registry is given.
  pub record IsPushed (s : ServiceConfig) (opt : ConvertOptions) (log after : Log) : Type 0 where
    pub image : Image
    pub user : Text
    pub parsed :
        ((opt.push_image_registry ≡ []) × (docker.parse s.image ≡ some image))
        ⊎ ((opt.push_image_registry ≢ [])
            × (named : Image) × (docker.parse s.image ≡ some named)
            × (docker.parse (docker.join_path opt.push_image_registry named.name) ≡ some image))
    pub calls :
        after
        ≡ (if opt.push_image_registry == []
            then log
            else log ++ tag image.short_name image.repository image.tag ∷ [])
          ++ push image.repository image.tag image.registry user ∷ []

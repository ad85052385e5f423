-- ===== src/Loader/Mapping/Named.antt =====
-- The keys of the mapped services.
use kompose.Base.{
  ◌≡◌, subst, inl, inr, Option, none, some, List, [], ◌∷◌, Text, ◌==◌, Bool-cases, if◌then◌else◌,
}
use kompose.Base.Int.{ℤ}
use kompose.Base.Dict.{Dict, insert, lookup, lookup-insert}
use kompose.Base.Outcome.{ok, >>=-eq-ok}
use kompose.Kobject.{ServiceConfig}
use kompose.Loader.Labels.{Cast}
use kompose.Loader.Names.{normalize_service_names, parse_resource_name}
use kompose.Loader.Project.{ComposeService, Project}
use kompose.Loader.Mapping.{map_service, key_of, map_services}

-- The name of a service, or that of its label, with the characters that the loader replaces.
abbrev pub normalized : ComposeService → Text
normalized c = normalize_service_names (parse_resource_name c.name c.labels)

-- The last service in the order of the loop that is kept under the key, or what was there before.
unfoldable pub last_named :
    Text → List ComposeService → Option ComposeService → Option ComposeService
last_named key [] found = found
last_named key (c ∷ cs) found = last_named key cs (if normalized c == key then some c else found)

module _ (cast : Cast) (split_words : Text → List Text) (seconds_of : Text → Option ℤ)
    (lookup_env : Text → Option Text) (project : Project) where
  -- What is kept under a key was made of that service.
  abbrev pub IsKept : Option ComposeService → Option ServiceConfig → Type 0
  IsKept none none = Unit
  IsKept none (some s) = ⊥
  IsKept (some c) none = ⊥
  IsKept (some c) (some s) = map_service cast split_words seconds_of lookup_env project c ≡ ok s

  IsKept-insert :
      (key : Text) (c : ComposeService) (s : ServiceConfig) (services : Dict ServiceConfig)
      (found : Option ComposeService)
      → map_service cast split_words seconds_of lookup_env project c ≡ ok s
      → IsKept found (lookup key services)
      → IsKept
          (if normalized c == key then some c else found)
          (lookup key (insert (normalized c) s services))
  IsKept-insert key c s services found made h =
      rw (lookup-insert (normalized c) key s services)
        (elim (Bool-cases (normalized c == key)) [ inl e ↦ rw e made | inr e ↦ rw e h ])

  map_services-IsKept :
      (key : Text) (cs : List ComposeService) (services mapped : Dict ServiceConfig)
      (found : Option ComposeService)
      → IsKept found (lookup key services)
      → map_services cast split_words seconds_of lookup_env project cs services ≡ ok mapped
      → IsKept (last_named key cs found) (lookup key mapped)
  unfolding map_services last_named key_of
  map_services-IsKept key [] services mapped found h e =
      let same : services ≡ mapped = cc in subst (λ m. IsKept found (lookup key m)) same h
  map_services-IsKept key (c ∷ cs) services mapped found h e =
      let (s, made, rest) =
        >>=-eq-ok (map_service cast split_words seconds_of lookup_env project c) _ e in
      map_services-IsKept key cs (insert (normalized c) s services) mapped _
        (IsKept-insert key c s services found made h) rest

  -- Each key of the mapped project has the service that was made of the last one with this normalized
  -- name, and there is none under a name that no service has: of services whose names are normalized
  -- alike, all but the last are lost.
  pub map_services-last_named :
      (key : Text) (mapped : Dict ServiceConfig)
      → map_services cast split_words seconds_of lookup_env project project.services [] ≡ ok mapped
      → IsKept (last_named key project.services none) (lookup key mapped)
  unfolding lookup
  map_services-last_named key mapped e =
      map_services-IsKept key project.services [] mapped none tt e

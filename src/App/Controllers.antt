-- ===== src/App/Controllers.antt =====
-- What the choice of controllers ensures.
use kompose.Base.{◌≤◌, true, false, ◌≡◌, ◌≢◌, ◌⊎◌, [], arith, ==_iff}
use kompose.Base.Outcome.{ok}
use kompose.Kobject.{ConvertOptions}
use kompose.App.{validate_controllers, provider_kubernetes, controller_count, single_output}

-- A workload will be made.
abbrev pub IsChosen : ConvertOptions → Type 0
IsChosen opt =
    (opt.create_d ≡ true) ⊎ (opt.create_ds ≡ true) ⊎ (opt.create_rc ≡ true) ⊎ (opt.controller ≢ [])

chosen :
    (opt r : ConvertOptions)
    → opt.provider ≡ provider_kubernetes
    → validate_controllers opt ≡ ok r
    → IsChosen r
unfolding validate_controllers
chosen opt r p h = ground (arith, ==_iff opt.provider provider_kubernetes, ==_iff opt.controller [])

single :
    (opt r : ConvertOptions)
    → opt.provider ≡ provider_kubernetes
    → validate_controllers opt ≡ ok r
    → (single_output opt ≡ false) ⊎ (controller_count r ≤ 1)
unfolding validate_controllers
single opt r p h = ground (arith, ==_iff opt.provider provider_kubernetes)

-- With the provider kubernetes, options that pass have a controller, and at most one kind of it if
-- there is one output.
pub validate_controllers-IsChosen :
    (opt r : ConvertOptions)
    → opt.provider ≡ provider_kubernetes
    → validate_controllers opt ≡ ok r
    → IsChosen r × ((single_output opt ≡ false) ⊎ (controller_count r ≤ 1))
validate_controllers-IsChosen opt r p h = (chosen opt r p h, single opt r p h)

-- ===== src/Loader/Names/Tests.antt =====
-- The names of pkg/loader/compose/utils.go at concrete texts.
use kompose.Base.{◌≡◌, refl, All, arith, codes, lower, replace, Lacks}
use kompose.Loader.Names.{normalize_service_names, normalize_container_names}
use kompose.Loader.Names.Laws.{IsServiceByte, normalize_service_names_idem}

service_name : normalize_service_names (codes "My_App.Web") ≡ codes "my-app-web"
unfolding normalize_service_names lower replace
service_name = refl

container_name : normalize_container_names (codes "My_App.Web") ≡ codes "my_app.web"
unfolding normalize_container_names lower replace
container_name = refl

normalize_service_names_idem_example :
    All IsServiceByte (normalize_service_names (codes "My_App.Web"))
    × (normalize_service_names (normalize_service_names (codes "My_App.Web"))
        ≡ normalize_service_names (codes "My_App.Web"))
normalize_service_names_idem_example = normalize_service_names_idem (codes "My_App.Web")

no_equals : Lacks b'=' (codes "DEBUG")
no_equals = ground arith

no_colon : Lacks b':' (codes "DEBUG")
no_colon = ground arith

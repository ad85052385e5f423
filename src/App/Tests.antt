-- ===== src/App/Tests.antt =====
-- The command line `kompose convert -o -`.
use kompose.Base.{◌≡◌, ◌↔◌, refl, [], codes, ◌==◌, true, false}
use kompose.Base.Int.{pos}
use kompose.Base.Outcome.{ok}
use kompose.Kobject.{ConvertOptions}
use kompose.Kobject.Samples.{bare_options}
use kompose.App.{
  FlagSet, normalize_output, validate_flags, validate_controllers, provider_kubernetes,
}
use kompose.App.Flags.{IsRead, IsAccepted, validate_flags-IsAccepted}

abbrev no_flags : FlagSet
no_flags = record {
  provider = provider_kubernetes;
  deployment_config = false;
  build_repo = false;
  build_branch = false;
  chart = false;
  daemon_set = false;
  replication_controller = false;
  deployment = false;
}

abbrev options : ConvertOptions
options = record bare_options {
  provider = provider_kubernetes;
  out_file = codes "-";
  volumes = codes "persistentVolumeClaim";
  replicas = pos 1;
}

validate_flags-IsAccepted_example :
    (validate_flags [] no_flags options ≡ ok (normalize_output options)) ↔ (
      IsRead options (normalize_output options) × IsAccepted [] no_flags (normalize_output options))
validate_flags-IsAccepted_example =
    validate_flags-IsAccepted [] no_flags options (normalize_output options)

accepted : validate_flags [] no_flags options ≡ ok (normalize_output options)
unfolding validate_flags ◌==◌
accepted = refl

abbrev deploys : ConvertOptions
deploys = record options { create_d = true }

chosen : validate_controllers options ≡ ok deploys
unfolding validate_controllers ◌==◌
chosen = refl

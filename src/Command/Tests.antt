-- ===== src/Command/Tests.antt =====
-- `kompose convert --multiple-container-mode` in a directory with a compose file.
use kompose.Base.{◌≡◌, refl, true, [], ◌∷◌, codes, ◌==◌}
use kompose.Base.Int.{pos}
use kompose.Base.Outcome.{ok}
use kompose.Kobject.{ConvertOptions}
use kompose.Kobject.Samples.{bare_options}
use kompose.App.{provider_kubernetes}
use kompose.Command.{pre_run}
use kompose.Command.Samples.{no_flags, flags, compose_here}

abbrev ready : ConvertOptions
ready = record bare_options {
  create_deployment_config = true;
  build = codes "none";
  volumes = codes "persistentVolumeClaim";
  replicas = pos 1;
  input_files = codes "compose.yaml" ∷ [];
  provider = provider_kubernetes;
  yaml_indent = pos 2;
  with_kompose_annotation = true;
  multiple_container_mode = true;
  service_group_mode = codes "label";
}

passed : pre_run compose_here [] no_flags flags ≡ ok ready
unfolding pre_run ◌==◌
passed = refl

-- ===== src/Client/Tests.antt =====
-- A caller that sets the provider OpenShift with a branch, and nothing else.
use kompose.Base.{◌≡◌, ◌≢◌, refl, true, false, none, some, [], ◌∷◌, codes, ◌==◌}
use kompose.Base.Outcome.{ok, err, panic}
use kompose.Kobject.{ConvertOptions}
use kompose.Kobject.Samples.{bare_options}
use kompose.Client.{Options, openshift, prepare}
use kompose.Client.Defaults.{prepare-safe}

abbrev on_branch : Options
on_branch = record {
  build = none;
  push_image = false;
  push_image_registry = [];
  generate_json = false;
  to_stdout = false;
  out_file = [];
  replicas = none;
  volume_type = none;
  pvc_request_size = [];
  with_kompose_annotations = none;
  input_files = codes "compose.yaml" ∷ [];
  profiles = [];
  provider = some (
      openshift (record {
        deployment_config = false;
        insecure_repository = false;
        build_repo = codes "git@host:app.git";
        build_branch = codes "main";
      }));
  generate_network_policies = false;
}

abbrev prepared : ConvertOptions
prepared = elim (prepare (λ name. true) [] on_branch) [
  | ok opt ↦ opt
  | err ↦ bare_options
  | panic ↦ bare_options
]

prepare-safe_example : prepare (λ name. true) [] on_branch ≢ panic
prepare-safe_example = prepare-safe (λ name. true) [] on_branch

-- The branch is lost, and the replicas of the services are overridden.
branch_is_repo :
    (prepared.build_branch ≡ codes "git@host:app.git") × (prepared.is_replica_set_flag ≡ true)
unfolding prepare ◌==◌
branch_is_repo = (refl, refl)

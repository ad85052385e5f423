-- ===== src/Client/Convert/Tests.antt =====
-- A caller that sets nothing, in a directory with a compose file.
use kompose.Base.{
  ◌≡◌, refl, true, false, none, List, [], ◌∷◌, codes, ◌==◌, map, lower, inl, inr, arith,
}
use kompose.Base.Outcome.{ok, err, panic}
use kompose.Base.Dict.{lookup, insert}
use kompose.Kobject.{ConvertOptions}
use kompose.Kobject.Samples.{bare_options}
use kompose.Kubernetes.Types.{RuntimeObject}
use kompose.Output.Json.{remove_empty_interfaces}
use kompose.Output.Memory.{Machine, memory}
use kompose.App.{default_compose_files}
use kompose.App.Convert.Samples.{host, rel, codec, load, disk}
use kompose.Client.{Options, prepare}
use kompose.Client.Convert.{convert}
use kompose.Client.Convert.Said.{flags_of, changes_of}
use kompose.Client.Convert.SameAsCommand.{IsUnchanged, convert-run}
use kompose.Command.Samples.{compose_here}
use kompose.Command.Run.{run}

abbrev no_options : Options
no_options = record {
  build = none;
  push_image = false;
  push_image_registry = [];
  generate_json = false;
  to_stdout = false;
  out_file = [];
  replicas = none;
  volume_type = none;
  pvc_request_size = [];
  with_kompose_annotations = none;
  input_files = [];
  profiles = [];
  provider = none;
  generate_network_policies = false;
}

abbrev given : ConvertOptions
given = elim (prepare compose_here default_compose_files no_options) [
  | ok opt ↦ opt
  | err ↦ bare_options
  | panic ↦ bare_options
]

prepared : prepare compose_here default_compose_files no_options ≡ ok given
unfolding prepare ◌==◌
prepared = refl

unchanged : IsUnchanged given
unfolding prepare ◌==◌ lower
unchanged = record {
  controller = refl;
  mode = inr refl;
  out_file = ground arith;
  accepted = record {
    provider = inr (inl (refl, refl, refl, refl, ground arith));
    one_output = inl refl;
    chart = inl refl;
    replicas = ground arith;
    no_args = refl;
    one_format = inl refl;
    volumes = inr (inr (inr refl));
  };
}

convert-run_example :
    convert host rel memory codec load compose_here no_options disk
    ≡ run host rel memory codec load compose_here []
        (changes_of given)
        true
        none
        (flags_of given)
        disk
convert-run_example =
    convert-run host rel memory codec load compose_here no_options given disk prepared unchanged

abbrev result : List RuntimeObject × Machine
result = elim (convert host rel memory codec load compose_here no_options disk) [
  | ok r ↦ r
  | err ↦ ([], disk)
  | panic ↦ ([], disk)
]

deployment_made : map (λ o. o.kind) result.0 ≡ codes "Deployment" ∷ []
unfolding convert ◌==◌ lookup insert remove_empty_interfaces lower
deployment_made = refl

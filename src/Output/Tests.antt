-- ===== src/Output/Tests.antt =====
-- A service and a deployment, written to a disk in memory.
use kompose.Base.{
  ◌≡◌, ◌≢◌, ◌⊎◌, refl, false, none, some, List, [], ◌∷◌, ◌++◌, Text, codes, ◌==◌, All, arith, lower,
}
use kompose.Base.Outcome.{ok}
use kompose.Base.Dict.{lookup, insert}
use kompose.Host.Samples.{bare_host}
use kompose.Kobject.Samples.{bare_options}
use kompose.Kubernetes.Types.{RuntimeObject, namespace_only}
use kompose.Output.Json.{scalar, mapping, end, field, remove_empty_interfaces}
use kompose.Output.Yaml.{Codec}
use kompose.Output.Print.{status_line, drop_status, file_name}
use kompose.Output.Print.Status.{has_status, drop_status_lem}
use kompose.Output.Lists.{print_list, get_dir_name}
use kompose.Output.Lists.Written.{IsWritten, print_list-IsWritten}
use kompose.Output.Memory.{Machine, memory, memory-IsLawful}

object : Text → Text → RuntimeObject
object kind name = record {
  api_version = codes "v1";
  kind = kind;
  meta = record { name = name; namespace = []; labels = []; annotations = [] };
  body = namespace_only;
}

abbrev objects : List RuntimeObject
unfolding object
objects = object (codes "Service") (codes "web") ∷ object (codes "Deployment") (codes "web") ∷ []

-- An object is marshalled as its kind with a status.
abbrev codec : Codec
codec = record {
  marshal_json = λ o. some o.kind;
  marshal_json_indent = λ o. some o.kind;
  unmarshal = λ t. some (mapping (field t (scalar t) end));
  encode = λ n v. elim v [
    | mapping fs ↦ (elim fs [ end ↦ none | field k w gs ↦ some (k ++ status_line ++ k) ])
    | _ ↦ none
  ];
}

abbrev empty_machine : Machine
empty_machine = record { files = []; out = [] }

abbrev holds : Machine
holds = record {
  files =
      (codes "./web-service.yaml", codes "Service")
      ∷ (codes "./web-deployment.yaml", codes "Deployment")
      ∷ [];
  out = [];
}

printed : print_list bare_host memory codec objects bare_options empty_machine ≡ ok holds
unfolding print_list ◌==◌ insert lookup remove_empty_interfaces object lower
printed = refl

print_list-IsWritten_example :
    All (IsWritten bare_host memory codec (codes ".") bare_options holds) objects
unfolding get_dir_name ◌==◌ object lower file_name
print_list-IsWritten_example =
    print_list-IsWritten bare_host memory codec (λ p q. p ≢ q) memory-IsLawful objects bare_options
      empty_machine holds (codes ".") refl refl printed refl (ground arith)

abbrev described : Text
described = codes "exit" ++ status_line ++ codes "after"

drop_status_lem_example :
    (has_status (drop_status described) ≡ false)
    × (((has_status described ≡ false) × (drop_status described ≡ described))
        ⊎ ((rest : Text) × (described ≡ drop_status described ++ (status_line ++ rest))))
drop_status_lem_example = drop_status_lem described

cut_at_status : drop_status described ≡ codes "exit"
unfolding drop_status
cut_at_status = refl

-- ===== src/App/Convert/Tests.antt =====
-- A project with one web server, converted and written to a disk in memory.
use kompose.Base.{◌≡◌, refl, List, [], ◌∷◌, codes, ◌==◌, lower}
use kompose.Base.Outcome.{ok, err, panic}
use kompose.Base.Dict.{lookup, insert}
use kompose.Kubernetes.Types.{RuntimeObject}
use kompose.Output.Json.{remove_empty_interfaces}
use kompose.Output.Memory.{Machine, memory}
use kompose.App.Convert.{convert, with_relative_env_files}
use kompose.App.Convert.Samples.{host, rel, codec, web, load, options, disk}

abbrev result : List RuntimeObject × Machine
result = elim (convert host rel memory codec load options disk) [
  | ok r ↦ r
  | err ↦ ([], disk)
  | panic ↦ ([], disk)
]

files_of_web : result.1.files ≡ (codes "./web-deployment.yaml", codes "Deployment") ∷ []
unfolding convert ◌==◌ lookup insert remove_empty_interfaces lower
files_of_web = refl

env_files_relative :
    with_relative_env_files host rel
      (codes "/src")
      ((codes "web", record web { env_file = codes "/src/env" ∷ [] }) ∷ [])
    ≡ ok ((codes "web", record web { env_file = codes "env" ∷ [] }) ∷ [])
unfolding with_relative_env_files
env_files_relative = refl

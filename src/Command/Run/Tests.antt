-- ===== src/Command/Run/Tests.antt =====
-- `kompose convert --provider Kubernetes` with one web server.
use kompose.Base.{◌≡◌, refl, false, none, List, [], ◌∷◌, codes, ◌==◌, map, lower}
use kompose.Base.Outcome.{ok, err, panic}
use kompose.Base.Dict.{lookup, insert}
use kompose.Kubernetes.Types.{RuntimeObject}
use kompose.Output.Json.{remove_empty_interfaces}
use kompose.Output.Memory.{Machine, memory}
use kompose.App.Convert.Samples.{host, rel, codec, load, disk}
use kompose.Command.{Flags}
use kompose.Command.Samples.{no_flags, flags, compose_here}
use kompose.Command.Run.{run, persistent_pre_run}
use kompose.Command.Run.Finished.{IsFinished, run-IsFinished}

abbrev capital : Flags
capital = record flags { global_provider = codes "Kubernetes" }

abbrev result : List RuntimeObject × Machine
result = elim (run host rel memory codec load compose_here [] no_flags false none capital disk) [
  | ok r ↦ r
  | err ↦ ([], disk)
  | panic ↦ ([], disk)
]

finished :
    run host rel memory codec load compose_here [] no_flags false none capital disk ≡ ok result
unfolding run ◌==◌ lookup insert remove_empty_interfaces lower
finished = refl

-- The provider passes the check, and what is made is for OpenShift.
capital_is_openshift :
    map (λ o. o.kind) result.0 ≡ codes "DeploymentConfig" ∷ codes "ImageStream" ∷ []
unfolding run ◌==◌ lookup insert remove_empty_interfaces lower
capital_is_openshift = refl

other_provider_refused :
    persistent_pre_run false none (record flags { global_provider = codes "docker" }) ≡ err
unfolding persistent_pre_run ◌==◌ lower
other_provider_refused = refl

run-IsFinished_example :
    IsFinished host rel memory codec load compose_here [] no_flags false none capital disk result.0
      result.1
run-IsFinished_example =
    run-IsFinished host rel memory codec load compose_here [] no_flags false none capital disk
      result.1 result.0 finished

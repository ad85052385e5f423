-- ===== src/Lib.antt =====
-- The conversion of compose files to Kubernetes objects by kompose.
--
-- The program reads a compose project (pkg/loader), turns it into its own data model (pkg/kobject),
-- and makes Kubernetes or OpenShift objects of that model (pkg/transformer); pkg/app checks the
-- command line, chooses loader and transformer, and prints what they return. The modules follow these
-- parts, and a definition has the name of its Go function in snake case:
--
-- - Base: lists, texts, decimal numerals, maps, sorting and the results of calls.
-- - Kobject (pkg/kobject/kobject.go): the structs, the ids of ports, and in Kobject.Update the rolling
--   update strategies GetKubernetesUpdateStrategy and GetOSUpdateStrategy.
-- - Transformer.Volume (pkg/transformer/utils.go): ParseVolume for Unix and Windows paths.
--   Transformer.Labels (the same file): ConfigLabels and its variants, ParseIngressPath.
-- - Loader.Names (pkg/loader/compose/utils.go): normalised names, service types, loadEnvVars.
--   Loader.Labels, Ports, Volumes, Placement, HealthChecks and Settings
--   (pkg/loader/compose/compose.go):
--   parseKomposeLabels, loadPorts, loadVolumes with ParseVols, retrieveVolume and handleVolume,
--   loadPlacement, parseHealthCheckReadiness, parseHealthCheck, parseNetwork, parseEnvironment.
--   Loader.Project, Mapping and Files (the same file): what the loader reads of a compose project,
--   dockerComposeToKomposeMapping with parseResources, which calls all of these for each service, and
--   LoadFile.
--   Loader.Volumes calls Transformer.Volume, as the source does.
-- - Host: what the program gets from outside, as one parameter, and checkIsEmptyDir over a tree of
--   files.
-- - Transformer.Annotations (pkg/transformer/utils.go): ConfigAnnotations and CreateNamespace.
-- - Kubernetes.Types: the fields of the API objects that the program fills.
--   Kubernetes.Ports, Envs, Placement, Secrets (pkg/transformer/kubernetes/kubernetes.go):
--   ConfigPorts, ConfigServicePorts, ConfigLBServicePorts and the check for port conflicts of a group
--   within Transform; ConfigEnvs; ConfigAffinity and ConfigTopologySpreadConstraints; the paths at
--   which secrets are mounted.
--   Kubernetes.Objects, NetworkMode, Hpa, Groups, Formats, Policies
--   (pkg/transformer/kubernetes/k8sutils.go): the order of the objects and duplicates,
--   fixNetworkModeToService, the horizontal pod autoscaler, the groups of services that share a
--   workload, the names of env files and resources, and the policies of a pod.
--   Kubernetes.Pods (podspec.go, with TranslatePodResource, fillInitContainers and GetContainerArgs of
--   k8sutils.go): the options that build the pod of a group; its volumes and mounts are sets that are
--   visited in any order.
--   Kubernetes.ConfigMaps, Workloads, Services, Volumes (kubernetes.go and k8sutils.go): the config
--   maps, InitPodSpec to InitCJ with the choice of the workloads, the services with their ingress and
--   network policies, and ConfigVolumes. Kubernetes.Controllers: UpdateController and
--   UpdateKubernetesObjects in both forms. Kubernetes.Transform: Transform, which calls all of these
--   for each group and for each service, and then those of Objects and NetworkMode.
-- - Openshift.Objects, Openshift.Transform (pkg/transformer/openshift): image streams, build and
--   deployment configs, routes, and Transform for OpenShift, on the objects of Kubernetes.
-- - Client (client/convert.go): the options of a caller of the library; Client.Convert, the function
--   Convert, which calls App, and the flags that say the same (Client.Convert.Said).
-- - Output (pkg/transformer/kubernetes/k8sutils.go, Print, Exists and CreateOutFile of
--   pkg/transformer/utils.go): removeEmptyInterfaces over the values of a JSON text (Output.Json), with
--   the loop over a slice on its array; marshal and jsonToYaml (Output.Yaml); Print, generateHelm and
--   PrintList (Output.Print, Helm, Lists), on a disk that is a parameter (Output.Disk).
-- - App (pkg/app/app.go): ValidateFlags, ValidateComposeFile, validateControllers, getTransformer.
--   App.Convert: the function Convert, from the options to the written files.
-- - Command (cmd/convert.go): the options that the command makes of its flags, and its checks.
--   Command.Run (cmd/root.go and cmd/convert.go): a whole run of the command. What viper reads from
--   COMPOSE_FILE and which flags are changed are arguments; the levels of the log, and the hook that
--   ends the program at a warning, are left out.
-- - Docker (pkg/utils/docker, BuildDockerImage and PushDockerImageWithOpt of
--   pkg/transformer/utils.go): the calls of docker that building and pushing an image make. Transform
--   takes from a Host only whether they succeed.
--
-- State and errors. A struct is a record, a map an association list in an order of iteration, a
-- pointer that may be nil an Option, and a call that changes an object returns the new one. A call
-- ends in `ok`, `err` (an error value without its text) or `panic`; log.Fatal is an error in App and
-- the end of the program, as a panic, in the transformer. A string is a list
-- of bytes; the literals are ASCII, case mapping and the character classes of the source are those of
-- ASCII. An int32 or int64 is an integer with its wrap-around written out. A nil slice and an empty
-- one are the same list, except for the test of a health check, where the program tells them apart.
--
-- Parameters. Code outside of the repository is an argument: the conversions of the package cast
-- (a record), os.Getenv, the words of a command, the seconds of a duration, whether a file exists,
-- and what an env file holds; for the transformer they are the fields of a Host, and what git
-- prints those of an OpenshiftHost. The functions of package os that write are the fields of an Os,
-- with four laws (IsLawful) about files whose paths are apart, the JSON and YAML libraries those of a Codec, the clients of docker those
-- of a Docker, and the compose library is a function that reads a project.
--
-- Bounds and fuel. Printing a number n in decimal uses n + 1 steps, enough as each step divides by
-- ten. retrieveVolume follows volumes-from without a bound in the source; on fuel, a cycle panics, as
-- the source overflows its stack, and fuel above the length of the longest chain is enough
-- (Loader.Volumes.Depth). The loops over objects by index take as many rounds as there are objects.
--
-- Not modelled: reading and interpolating compose files and printing YAML (libraries), the parsing of
-- env files, the packing of a directory for docker, the declaration of the command line and its shell
-- completions (texts for a library), and checkUnsupportedKey (reflection over the structs), which
-- the program never calls.
pub mod Base
pub mod Kobject
pub mod Host
pub mod Transformer
pub mod Loader
pub mod Kubernetes
pub mod Openshift
pub mod App
pub mod Client
pub mod Output
pub mod Command
pub mod Docker

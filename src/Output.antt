-- ===== src/Output.antt =====
-- What the program writes (PrintList and its callees in pkg/transformer/kubernetes/k8sutils.go, Print,
-- Exists and CreateOutFile in pkg/transformer/utils.go).
pub mod Json
pub mod Disk
pub mod Yaml
pub mod Print
pub mod Helm
pub mod Lists
pub mod Memory
mod Tests

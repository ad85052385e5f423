-- ===== src/Kubernetes/Pods.antt =====
-- The pod of a service: its parts, and the options that build it
-- (pkg/transformer/kubernetes/podspec.go).
pub mod Probes
pub mod Security
pub mod Resources
pub mod Mounts
pub mod Options
pub mod Init
mod Tests

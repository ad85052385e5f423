-- ===== src/Kubernetes.antt =====
-- pkg/transformer/kubernetes: from the kobject data to Kubernetes objects.
pub mod Ports
pub mod Types
pub mod Objects
pub mod NetworkMode
pub mod Hpa
pub mod Formats
pub mod Groups
pub mod Envs
pub mod Placement
pub mod Policies
pub mod Pods
pub mod ConfigMaps
pub mod Workloads
pub mod Services
pub mod Volumes
pub mod Controllers
pub mod Transform
pub mod Secrets
mod Tests

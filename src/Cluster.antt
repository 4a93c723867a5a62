-- ===== src/Cluster.antt =====
-- internal/controller/stroomcluster.go and stroomcluster_controller.go.
pub mod Config
pub mod Environment
pub mod Volumes
pub mod Containers
pub mod StatefulSet
pub mod Services
pub mod Ingresses
pub mod Claim
pub mod Finalizers
pub mod Tasks
pub mod Deletion
pub mod Plan
pub mod Pvcs
pub mod Files
pub mod Apply
pub mod Reconcile

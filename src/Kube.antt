-- ===== src/Kube.antt =====
-- The Kubernetes types and operations that the operator uses.
pub mod Meta
pub mod Core
pub mod Env
pub mod Outcome
pub mod Owner

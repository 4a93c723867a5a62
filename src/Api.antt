-- ===== src/Api.antt =====
-- The custom resources of api/v1.
pub mod Common
pub mod DatabaseServer
pub mod StroomCluster
pub mod Autoscaler
pub mod DatabaseBackup

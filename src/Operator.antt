-- ===== src/Operator.antt =====
-- internal/controller: the four controllers as one program.
pub mod Calls
pub mod Cluster
pub mod Children
pub mod Server
pub mod Scaler
pub mod Backup
pub mod Steps
pub mod Secrets

-- ===== src/DatabaseServer.antt =====
-- internal/controller/databaseserver.go and databaseserver_controller.go.
pub mod Resources
pub mod Names
pub mod Children
pub mod Reconcile
pub mod Secrets
pub mod References

-- ===== src/Manager.antt =====
-- cmd/main.go and the `SetupWithManager` of the four controllers.
pub mod Runtime
pub mod Setup
pub mod Main
pub mod Started

-- ===== src/Autoscaler.antt =====
-- internal/controller/stroomtaskautoscaler_controller.go.
pub mod Limit
pub mod Scale
pub mod Reconcile
pub mod Usage

-- ===== src/Reconciler.antt =====
-- The controller's reconciler: pkg/reconciler/cloudschedulersource.
pub mod Finalizers
pub mod Sinks
pub mod Services
pub mod Jobs
pub mod Updates
pub mod Loop
pub mod Controller
pub mod Lifecycle

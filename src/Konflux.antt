-- ===== src/Konflux.antt =====
-- operator/internal/controller/konflux: the reconcile of the Konflux resource.
pub mod Defs
pub mod Reconcile
pub mod Ready
pub mod Deletes
pub mod Sweeps
mod Tests
pub mod Orders

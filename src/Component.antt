-- ===== src/Component.antt =====
-- operator/internal/controller/*: the controllers of the parts of Konflux, which apply the manifests
-- of one part, delete what is no longer wanted, and report over the deployments.
pub mod Defs
pub mod Manifests
pub mod Controllers
pub mod DefaultTenant
pub mod Steps
pub mod Parts
pub mod Tracked
pub mod Sweeps
pub mod Deletes
pub mod Ready
mod Tests

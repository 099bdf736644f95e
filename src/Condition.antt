-- ===== src/Condition.antt =====
-- operator/internal/condition: the status conditions of the custom resources.
pub mod Defs
pub mod Laws
pub mod Deployments
pub mod SubResources
pub mod Tests

-- ===== src/Tracking.antt =====
-- operator/pkg/tracking: applying resources, remembering them, and deleting what was not applied.
pub mod Defs
pub mod Apply
pub mod Growth
pub mod Cleanup
pub mod Tests

-- ===== src/Overrides.antt =====
-- operator/pkg/overrides: replacing repositories and images in the embedded manifests.
pub mod Cuts
pub mod Images
pub mod References
pub mod Repos
pub mod Validate
pub mod Accepted
mod Tests

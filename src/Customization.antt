-- ===== src/Customization.antt =====
-- operator/pkg/customization: changing the containers of an embedded workload by what a custom
-- resource asks for.
pub mod Keyed
pub mod Container
pub mod Overlay
pub mod Merge
pub mod Laws
pub mod Pods
mod Tests

-- ===== src/Scrape.antt =====
-- The Prometheus scrape token of an operand namespace and the ServiceMonitor that uses it.
pub mod Token
pub mod Resync
pub mod Reconcile
pub mod Freshness
pub mod Ensure
pub mod Settle
pub mod Order
pub mod Minting
pub mod Resources
mod Tests

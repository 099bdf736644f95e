-- ===== src/Ingress.antt =====
-- operator/pkg/ingress/ingress.go, and what KonfluxUI's Reconcile does with it: the endpoint of the UI and
-- the Ingress that serves it.
pub mod Hosts
pub mod Defs
pub mod Endpoint
pub mod Managed
pub mod Agreement
pub mod Tests

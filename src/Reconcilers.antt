-- ===== src/Reconcilers.antt =====
-- pkg/kubernetes/reconcilers: what the controllers do with one object.
pub mod Tenant
pub mod Children
pub mod Redis
mod Tests

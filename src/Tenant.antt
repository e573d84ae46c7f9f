-- ===== src/Tenant.antt =====
-- internal/tenant: the cache in front of the tenant store.
pub mod Types
pub mod Cache

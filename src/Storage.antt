-- ===== src/Storage.antt =====
-- internal/storage: what ingest writes under the caps of a tenant.
pub mod Dims
pub mod Vocabulary
pub mod Versions
pub mod Installs
pub mod Predicates

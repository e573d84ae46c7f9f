-- ===== src/Otlp.antt =====
-- internal/otlp: the ingest pipeline of the public server.
pub mod Clamp
pub mod Limits
pub mod Attrs
pub mod Promote
pub mod Pipeline
pub mod Metrics
pub mod Catalog
pub mod Reasons
pub mod FoldDims
pub mod VendorCaps

-- ===== src/Examples.antt =====
-- Tests, and each theorem at a concrete input: one child for each part.
pub mod Sample
mod AllowlistCases
mod ConsentCases
mod OtlpCases
mod TenantCases
mod MetricsCases
mod CatalogCases
mod AuthnCases
mod StorageCases
mod LimiterCases
mod InstallCases
mod QueryCases
mod VendorCapCases

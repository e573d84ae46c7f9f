-- ===== src/Config.antt =====
-- internal/config: the settings that the other parts read, and their checks.
pub mod Auth

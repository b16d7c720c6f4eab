-- ===== src/Config.antt =====
-- internal/config: the quantities of the configuration.
pub mod Size

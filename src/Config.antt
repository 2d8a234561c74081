-- ===== src/Config.antt =====
-- The configuration: include/alpha/config and src/alpha/config.
pub mod Constants
pub mod Loader

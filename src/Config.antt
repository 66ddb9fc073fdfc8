-- ===== src/Config.antt =====
-- internal/config: checks of the configuration.
pub mod Folders
pub mod Checks

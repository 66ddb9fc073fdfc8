-- ===== src/Storage.antt =====
-- internal/storage: the live state of the adopted drives.
pub mod Paths
pub mod Inspect
mod Tests
pub mod Adopt

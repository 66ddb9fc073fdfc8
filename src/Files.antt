-- ===== src/Files.antt =====
-- internal/files: the file service that phones and browsers use.
pub mod Sync

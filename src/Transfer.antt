-- ===== src/Transfer.antt =====
-- internal/transfer: the links that phones use.
pub mod Session
pub mod Tables
pub mod Store
pub mod Names
pub mod Publish
pub mod Save
pub mod Receive
pub mod Downloads

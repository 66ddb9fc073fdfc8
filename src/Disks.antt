-- ===== src/Disks.antt =====
-- internal/disks: the discovery of drives.
pub mod Lsblk
pub mod Names
pub mod Display
pub mod Inventory
pub mod Volumes
pub mod Build
pub mod Machine
mod Tests

-- ===== src/Disks/Inventory.antt =====
-- internal/disks/disks.go: what a discovery pass reports. A note is a value that stands for its text.
use omarchy_vault.Prelude.{ℕ, GoString, Bool, List}

pub data DiskStatus : Type 0 where
  system available unmounted unsupported read_only : DiskStatus

pub data VolumeStatus : Type 0 where
  system mounted unmounted container unsupported swap : VolumeStatus

-- `health.Status`
pub data Health : Type 0 where
  healthy warning critical unknown : Health

pub data Note : Type 0 where
  used_by_os swap_space see_inside not_assembled unidentified no_filesystem : Note
  unsupported_fs not_mounted fs_caveat read_only_device : Note
  reserved_location : GoString → Note
  removable_drive : Note

pub record Volume : Type 0 where
  pub name : GoString
  pub path : GoString
  pub type : GoString
  pub fstype : GoString
  pub label : GoString
  pub uuid : GoString
  pub size_bytes : ℕ
  pub mountpoints : List GoString
  pub fs_size : ℕ
  pub fs_used : ℕ
  pub fs_avail : ℕ
  pub status : VolumeStatus
  pub adoptable : Bool
  pub notes : List Note

pub record Disk : Type 0 where
  pub id : GoString
  pub name : GoString
  pub path : GoString
  pub display_name : GoString
  pub model : GoString
  pub vendor : GoString
  pub serial : GoString
  pub kind : GoString
  pub transport : GoString
  pub size_bytes : ℕ
  pub rotational : Bool
  pub removable : Bool
  pub read_only : Bool
  pub system : Bool
  pub is_protected : Bool
  -- the mounts or devices that `ProtectedReason` names
  pub protected_by : List GoString
  pub status : DiskStatus
  pub adoptable : Bool
  pub volumes : List Volume
  pub health : Health
  pub notes : List Note

pub record Summary : Type 0 where
  pub total : ℕ
  pub system : ℕ
  pub available : ℕ
  pub unmounted : ℕ
  pub unsupported : ℕ
  pub healthy : ℕ
  pub warning : ℕ
  pub critical : ℕ
  pub unknown : ℕ

pub data Warning : Type 0 where
  mount_table_unreadable no_system_disk findmnt_unavailable : Warning

pub record Inventory : Type 0 where
  pub disks : List Disk
  pub system_disk_detected : Bool
  pub summary : Summary
  pub warnings : List Warning
  pub scanned_at : ℕ

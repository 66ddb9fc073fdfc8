-- ===== src/Storage/Inspect/Ready.antt =====
-- internal/storage/storage.go: a source is ready only where its drive really is.
use omarchy_vault.Prelude.{◌≡◌, ◌⊎◌, GoString, contains, true, false, Option, none, some, []}
use omarchy_vault.Disks.Inventory.{Volume, Inventory}
use omarchy_vault.Storage.Paths.{MountTable, containing, is_mount_point}
use omarchy_vault.Storage.Inspect.{Source, Answers, Usage, data_dir, find_uuid, folder}

-- There is no inventory, or the source has no UUID, or the inventory has a volume of the UUID on a drive
-- that is not the system's, mounted at the path of the source.
abbrev pub IsAttached : Source → Option Inventory → Type 0
IsAttached s o =
    (o ≡ none)
    ⊎ (s.uuid ≡ [])
    ⊎ ((inv : Inventory) × (v : Volume) × (o ≡ some inv)
        × (find_uuid s.uuid inv.disks ≡ some (v, false))
        × (contains v.mountpoints s.path ≡ true))

-- What must hold of a source that is ready.
abbrev pub IsUsable : Source → Option Inventory → MountTable → Answers → Type 0
IsUsable s inv t a =
    IsAttached s inv
    × (is_mount_point t s.path ≡ true)
    × (a.found ≡ folder)
    × (containing t (data_dir s) ≡ s.path)
    × ((r : GoString) × (a.resolved ≡ some r) × (containing t r ≡ s.path))
    × ((u : Usage) × (a.capacity ≡ some u))

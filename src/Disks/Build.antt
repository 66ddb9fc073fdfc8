-- ===== src/Disks/Build.antt =====
-- internal/disks/disks.go: `Build`, from what lsblk and findmnt report to the inventory.
pub mod Protection
pub mod Totals
pub mod Offers
use omarchy_vault.Prelude.{
  ℕ, ◌+◌, GoString, codes, str_eq, str_lt, is_empty, has_prefix, contains, first_non_empty, Bool,
  true, false, not, ◌&&◌, ◌||◌, ◌==◌, filter, any, length, Option, none, some, List, [], ◌∷◌, ◌++◌,
  map, if◌then◌else◌,
}
use mathlib.Core.List.{foldl}
use omarchy_vault.Disks.Lsblk.{
  Device, Node, node, Nodes, nil, cons, Mounts, MountInfo, MountMap, mounts, device, flatten_mounts,
}
use omarchy_vault.Disks.Names.{is_system_mount}
use omarchy_vault.Disks.Inventory.{
  Disk, DiskStatus, system, available, unmounted, unsupported, read_only, Volume, VolumeStatus,
  Health, healthy, warning, critical, unknown, removable_drive, Summary, Warning,
  mount_table_unreadable, no_system_disk, Inventory,
}
use omarchy_vault.Disks.Display.{trim_space, kind_of, display_name}
use omarchy_vault.Disks.Volumes.{collect_volumes}

-- `skipTopLevel`
unfoldable pub skip_top_level : Device → Bool
skip_top_level d =
    str_eq d.type (codes "loop")
    || (str_eq d.type (codes "rom")
        || (str_eq d.type (codes "ram")
            || (has_prefix d.name (codes "zram")
                || (has_prefix d.name (codes "ram") || d.size == 0))))

abbrev pub node_paths : Device → List GoString
node_paths d = d.path ∷ (codes "/dev/" ++ d.kname) ∷ (codes "/dev/mapper/" ++ d.name) ∷ []

-- The closure `walk` of `buildDisk`: what `hit` finds at the nodes of a subtree, from its root.
unfoldable mutual
  pub walk : (Device → List GoString) → Node → List GoString
  walk hit (node d ns) = hit d ++ walk_children hit ns

  pub walk_children : (Device → List GoString) → Nodes → List GoString
  walk_children hit nil = []
  walk_children hit (cons n ns) = walk hit n ++ walk_children hit ns

abbrev pub system_hits : Device → List GoString
system_hits d = filter is_system_mount (mounts d)

abbrev pub device_hits : List GoString → Device → List GoString
device_hits sources d = filter (contains sources) (node_paths d)

dedupe_from : List GoString → List GoString → List GoString
dedupe_from seen [] = []
dedupe_from seen (s ∷ rest) =
    let kept = s ∷ dedupe_from (s ∷ seen) rest in
    let dropped = dedupe_from seen rest in if contains seen s then dropped else kept

-- `dedupe`
unfoldable pub dedupe : List GoString → List GoString
unfolding dedupe_from
dedupe = dedupe_from []

abbrev pub or_else : List GoString → List GoString → List GoString
or_else [] ys = ys
or_else (x ∷ xs) ys = x ∷ xs

abbrev is_unmounted : VolumeStatus → Bool
is_unmounted VolumeStatus.unmounted = true
is_unmounted _ = false

-- `diskStatus`
unfoldable pub disk_status : Bool → Bool → Bool → List Volume → DiskStatus
disk_status is_system adoptable ro vs =
    if is_system
    then system
    else if adoptable
    then available
    else if ro
    then read_only
    else if any (λ v. is_unmounted v.status) vs
    then unmounted
    else unsupported

abbrev pub not_nil : List GoString → Bool
not_nil [] = false
not_nil (_ ∷ _) = true

-- `buildDisk`
unfoldable pub build_disk : List GoString → MountMap → Node → Disk
build_disk sources table n =
    let d = device n in
    let hits = or_else (walk system_hits n) (walk (device_hits sources) n) in
    let volumes = collect_volumes (not_nil hits) table d.ro n in
    let adoptable = any (λ v. v.adoptable) volumes in
    record {
      id = first_non_empty d.kname d.name;
      name = d.name;
      path = first_non_empty d.path (codes "/dev/" ++ d.name);
      display_name = display_name (trim_space d.vendor) (trim_space d.model) (kind_of d) d.name;
      model = trim_space d.model;
      vendor = trim_space d.vendor;
      serial = trim_space d.serial;
      kind = kind_of d;
      transport = d.tran;
      size_bytes = d.size;
      rotational = d.rota;
      removable = d.rm || d.hotplug;
      read_only = d.ro;
      system = not_nil hits;
      is_protected = not_nil hits;
      protected_by = dedupe hits;
      status = disk_status (not_nil hits) adoptable d.ro volumes;
      adoptable = adoptable;
      volumes = volumes;
      health = unknown;
      notes = if (d.rm || d.hotplug) && not (not_nil hits) then removable_drive ∷ [] else [];
    }

-- the two switches of `summarize`
count_status : DiskStatus → Summary → Summary
count_status system s = record s { system = s.system + 1 }
count_status available s = record s { available = s.available + 1 }
count_status unmounted s = record s { unmounted = s.unmounted + 1 }
count_status _ s = record s { unsupported = s.unsupported + 1 }

count_health : Health → Summary → Summary
count_health healthy s = record s { healthy = s.healthy + 1 }
count_health warning s = record s { warning = s.warning + 1 }
count_health critical s = record s { critical = s.critical + 1 }
count_health unknown s = record s { unknown = s.unknown + 1 }

abbrev no_disks : ℕ → Summary
no_disks total = record {
  total = total;
  system = 0;
  available = 0;
  unmounted = 0;
  unsupported = 0;
  healthy = 0;
  warning = 0;
  critical = 0;
  unknown = 0;
}

count_from : Summary → List Disk → Summary
count_from s [] = s
count_from s (d ∷ ds) = count_from (count_health d.health (count_status d.status s)) ds

-- `summarize`
unfoldable pub summarize : List Disk → Summary
unfolding count_from count_health count_status
summarize ds = count_from (no_disks (length ds)) ds

abbrev pub withdraw_volume : Volume → Volume
withdraw_volume v = record v { adoptable = false }

-- `Adoptable = false` for every drive and volume; the statuses stay.
unfoldable pub withdraw : Disk → Disk
withdraw d = record d { adoptable = false; volumes = map withdraw_volume d.volumes }

-- the order of `sort.SliceStable`: system drives first, then by name
unfoldable pub comes_before : Disk → Disk → Bool
comes_before a b =
    if a.system
    then (if b.system then str_lt a.name b.name else true)
    else if b.system
    then false
    else str_lt a.name b.name

-- insertion before the first that does not come before it keeps the order of equals
unfoldable pub insert_disk : Disk → List Disk → List Disk
insert_disk d [] = d ∷ []
insert_disk d (x ∷ xs) =
    let rest = insert_disk d xs in if comes_before x d then x ∷ rest else d ∷ x ∷ xs

unfoldable pub sort_disks : List Disk → List Disk
unfolding insert_disk
sort_disks [] = []
sort_disks (d ∷ ds) = insert_disk d (sort_disks ds)

-- What became of the output of findmnt: there was none, it was no JSON, or it was decoded.
pub data Findmnt : Type 0 where
  absent unreadable : Findmnt
  decoded : Mounts → Findmnt

abbrev pub mount_map : Findmnt → MountMap
mount_map (decoded ms) = flatten_mounts ms []
mount_map _ = []

-- the sources of system mounts that are devices
unfoldable pub sources_of : MountMap → List GoString
sources_of [] = []
sources_of ((target, info) ∷ m) =
    let rest = sources_of m in
    if is_system_mount target && has_prefix info.source (codes "/dev/")
    then info.source ∷ rest
    else rest

abbrev findmnt_warnings : Findmnt → List Warning
findmnt_warnings unreadable = mount_table_unreadable ∷ []
findmnt_warnings _ = []

unfoldable pub top_nodes : Nodes → List Node
top_nodes nil = []
top_nodes (cons n ns) =
    let rest = top_nodes ns in if skip_top_level (device n) then rest else n ∷ rest

-- `Build`; `none` stands for output of lsblk that is no JSON.
unfoldable pub build : Option Nodes → Findmnt → Option Inventory
build none findmnt = none
build (some nodes) findmnt =
    let table = mount_map findmnt in
    let found = map (build_disk (sources_of table) table) (top_nodes nodes) in
    let detected = any (λ d. d.system) found in
    let disks = sort_disks (if detected then found else map withdraw found) in
    some (record {
      disks = disks;
      system_disk_detected = detected;
      summary = summarize disks;
      warnings = findmnt_warnings findmnt ++ (if detected then [] else no_system_disk ∷ []);
      scanned_at = 0;
    })

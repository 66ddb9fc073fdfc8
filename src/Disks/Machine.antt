-- ===== src/Disks/Machine.antt =====
-- internal/disks/disks.go: the inventory of a machine with a system drive and a data drive.
use omarchy_vault.Prelude.{
  ◌≡◌, refl, GoString, codes, str_eq, has_prefix, contains, true, false, Option, none, some, List,
  [], ◌∷◌,
}
use omarchy_vault.Disks.Lsblk.{Device, Node, node, Nodes, nil, cons, mounts}
use omarchy_vault.Disks.Names.{is_system_mount}
use omarchy_vault.Disks.Inventory.{Inventory}
use omarchy_vault.Disks.Build.{
  build_disk, walk, sort_disks, comes_before, build, absent, sources_of, top_nodes, skip_top_level,
  summarize,
}

abbrev pub plain : GoString → GoString → GoString → List (Option GoString) → Device
plain name type fstype mountpoints = record {
  name = name;
  kname = name;
  path = [];
  type = type;
  size = 1000;
  model = [];
  serial = [];
  vendor = [];
  fstype = fstype;
  uuid = [];
  label = [];
  partlabel = [];
  mountpoints = mountpoints;
  mountpoint = none;
  fssize = 0;
  fsused = 0;
  fsavail = 0;
  rm = false;
  ro = false;
  rota = false;
  tran = [];
  hotplug = false;
}

abbrev pub root_part : Device
root_part = plain (codes "sda1") (codes "part") (codes "ext4") (some (codes "/") ∷ [])

abbrev pub system_drive : Node
system_drive = node (plain (codes "sda") (codes "disk") [] []) (cons (node root_part nil) nil)

abbrev pub data_drive : Node
data_drive = node (plain (codes "sdb") (codes "disk") [] []) (
    cons
      (node (plain (codes "sdb1") (codes "part") (codes "ext4") (some (codes "/mnt/data") ∷ []))
        nil)
      nil)

abbrev pub machine : Nodes
machine = cons data_drive (cons system_drive nil)

abbrev pub inventory : Inventory
inventory = record {
  disks = build_disk [] [] system_drive ∷ build_disk [] [] data_drive ∷ [];
  system_disk_detected = true;
  summary = summarize (build_disk [] [] system_drive ∷ build_disk [] [] data_drive ∷ []);
  warnings = [];
  scanned_at = 0;
}

pub built : build (some machine) absent ≡ some inventory
unfolding build build_disk walk sort_disks comes_before summarize sources_of top_nodes
    skip_top_level has_prefix str_eq contains is_system_mount mounts
built = refl

-- ===== src/Disks/Volumes.antt =====
-- internal/disks/disks.go: the volumes of a drive and what can be done with each.
pub mod Offered
use omarchy_vault.Prelude.{
  ℕ, GoString, codes, str_eq, is_empty, first_non_empty, Bool, true, false, not, ◌||◌, find?, any,
  Option, none, some, List, [], ◌∷◌, ◌++◌, if◌then◌else◌,
}
use omarchy_vault.Prelude.Dict
use omarchy_vault.Disks.Lsblk.{Device, Node, node, Nodes, nil, cons, MountInfo, MountMap, mounts}
use omarchy_vault.Disks.Names.{is_system_mount, is_reserved_target, caveat, is_container}
use omarchy_vault.Disks.Inventory.{
  Volume, VolumeStatus, system, mounted, unmounted, container, unsupported, swap, Note, used_by_os,
  swap_space, see_inside, not_assembled, unidentified, no_filesystem, unsupported_fs, not_mounted,
  fs_caveat, read_only_device, reserved_location,
}

-- The filesystem type that the mount table gives for the first mount that it knows.
unfoldable pub mounted_fstype : MountMap → List GoString → GoString
mounted_fstype table [] = []
mounted_fstype table (m ∷ ms) = elim (Dict.lookup m table) [
  | none ↦ mounted_fstype table ms
  | some info ↦ if is_empty info.fstype then mounted_fstype table ms else info.fstype
]

abbrev pub is_nil : Nodes → Bool
is_nil nil = true
is_nil (cons _ _) = false

abbrev pub none_left : List GoString → Bool
none_left [] = true
none_left (_ ∷ _) = false

-- a volume as it is before `classifyVolume`
unfoldable pub raw_volume : MountMap → Device → Volume
raw_volume table d = record {
  name = d.name;
  path = first_non_empty d.path (codes "/dev/" ++ d.kname);
  type = d.type;
  fstype = if is_empty d.fstype then mounted_fstype table (mounts d) else d.fstype;
  label = first_non_empty d.label d.partlabel;
  uuid = d.uuid;
  size_bytes = d.size;
  mountpoints = mounts d;
  fs_size = d.fssize;
  fs_used = d.fsused;
  fs_avail = d.fsavail;
  status = unsupported;
  adoptable = false;
  notes = [];
}

abbrev pub verdict : Volume → VolumeStatus → List Note → Volume
verdict v st ns = record v { status = st; notes = ns }

-- the end of `classifyVolume`: a mounted, supported filesystem with its first reserved mount
abbrev pub place : Volume → List Note → Option GoString → Volume
place v ns (some m) = verdict v mounted (ns ++ reserved_location m ∷ [])
place v ns none = record v { status = mounted; notes = ns; adoptable = true }

unfoldable pub classify_mounted : Volume → List Note → Bool → Volume
classify_mounted v ns true = verdict v mounted (ns ++ read_only_device ∷ [])
classify_mounted v ns false = place v ns (find? is_reserved_target v.mountpoints)

unfoldable pub classify_supported : Volume → Option Bool → Bool → Volume
classify_supported v none ro = verdict v unsupported (unsupported_fs ∷ [])
classify_supported v (some limited) ro =
    if none_left v.mountpoints
    then verdict v unmounted (not_mounted ∷ [])
    else classify_mounted v (if limited then fs_caveat ∷ [] else []) ro

-- `classifyVolume`
unfoldable pub classify_volume : Volume → Bool → Bool → Bool → Volume
classify_volume v has_children is_system ro =
    if is_system
    then verdict v system (if any is_system_mount v.mountpoints then used_by_os ∷ [] else [])
    else if str_eq v.fstype (codes "swap")
    then verdict v swap (swap_space ∷ [])
    else if is_container v.fstype
    then (if has_children
        then verdict v container (see_inside ∷ [])
        else verdict v unsupported (not_assembled ∷ []))
    else if is_empty v.fstype
    then (if has_children
        then verdict v container []
        else if none_left v.mountpoints
        then verdict v unsupported (no_filesystem ∷ [])
        else verdict v unsupported (unidentified ∷ []))
    else classify_supported v (caveat v.fstype) ro

abbrev pub own_volume : Bool → MountMap → Bool → Device → Bool → List Volume
own_volume is_system table ro d has_children =
    if not (str_eq d.type (codes "disk")) || (not (is_empty d.fstype) || not (none_left (mounts d)))
    then classify_volume (raw_volume table d) has_children is_system ro ∷ []
    else []

unfoldable mutual
  -- `collectVolumes`, with what it appends as the result
  pub collect_volumes : Bool → MountMap → Bool → Node → List Volume
  collect_volumes is_system table parent_ro (node d ns) =
      own_volume is_system table (parent_ro || d.ro) d (not (is_nil ns))
      ++ collect_children is_system table (parent_ro || d.ro) ns

  pub collect_children : Bool → MountMap → Bool → Nodes → List Volume
  collect_children is_system table ro nil = []
  collect_children is_system table ro (cons n ns) =
      collect_volumes is_system table ro n ++ collect_children is_system table ro ns

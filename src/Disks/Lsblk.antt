-- ===== src/Disks/Lsblk.antt =====
-- internal/disks/lsblk.go: the devices that lsblk lists and the mounts that findmnt lists, after the
-- JSON decoder. Sizes are never negative.
use mathlib.Core.List.{foldl}
use omarchy_vault.Prelude.{
  ℕ, GoString, is_empty, contains, Bool, ◌||◌, Option, none, some, List, [], ◌∷◌, ◌++◌,
  if◌then◌else◌, ◌==◌,
}
use omarchy_vault.Prelude.Dict

-- one `lsblkNode` without its children
pub record Device : Type 0 where
  pub name : GoString
  pub kname : GoString
  pub path : GoString
  pub type : GoString
  pub size : ℕ
  pub model : GoString
  pub serial : GoString
  pub vendor : GoString
  pub fstype : GoString
  pub uuid : GoString
  pub label : GoString
  pub partlabel : GoString
  pub mountpoints : List (Option GoString)
  pub mountpoint : Option GoString
  pub fssize : ℕ
  pub fsused : ℕ
  pub fsavail : ℕ
  pub rm : Bool
  pub ro : Bool
  pub rota : Bool
  pub tran : GoString
  pub hotplug : Bool

-- `lsblkNode`
mutual
  pub data Node : Type 0 where
    node : Device → Nodes → Node

  pub data Nodes : Type 0 where
    nil : Nodes
    cons : Node → Nodes → Nodes

abbrev pub device : Node → Device
device (node d _) = d

abbrev pub children : Node → Nodes
children (node _ ns) = ns

-- the closure `add` of `mounts`; what it has seen is what it has put out
unfoldable pub add_mount : List GoString → Option GoString → List GoString
add_mount out none = out
add_mount out (some p) = if is_empty p || contains out p then out else out ++ p ∷ []

-- `lsblkNode.mounts`
unfoldable pub mounts : Device → List GoString
unfolding add_mount
mounts d = add_mount (foldl add_mount [] d.mountpoints) d.mountpoint

pub record MountInfo : Type 0 where
  pub source : GoString
  pub fstype : GoString

-- `findmntNode`
mutual
  pub data Mount : Type 0 where
    mount : GoString → GoString → GoString → Mounts → Mount

  pub data Mounts : Type 0 where
    nil : Mounts
    cons : Mount → Mounts → Mounts

-- the text before the first `[`, but the whole text where it begins with one or has none
cut_bracket : GoString → GoString
cut_bracket [] = []
cut_bracket (c ∷ s) = let rest = cut_bracket s in if c == b'[' then [] else c ∷ rest

unfoldable pub device_of : GoString → GoString
unfolding cut_bracket
device_of [] = []
device_of (c ∷ s) = if c == b'[' then c ∷ s else c ∷ cut_bracket s

abbrev pub MountMap : Type 0
MountMap = List (GoString × MountInfo)

unfoldable mutual
  -- the closure `walk` of `parseFindmnt`
  pub flatten_mount : Mount → MountMap → MountMap
  flatten_mount (mount target source fstype below) m =
      flatten_mounts below
        (Dict.insert target (record { source = device_of source; fstype = fstype }) m)

  pub flatten_mounts : Mounts → MountMap → MountMap
  flatten_mounts nil m = m
  flatten_mounts (cons x xs) m = flatten_mounts xs (flatten_mount x m)

-- ===== src/Storage/Inspect.antt =====
-- internal/storage/storage.go: `Inspect`. What the file system answers for the folder of a source is
-- an argument.
pub mod Ready
use omarchy_vault.Prelude.{
  ℕ, ◌+◌, ◌%◌, ◌^◌, GoString, codes, str_eq, is_empty, contains, Bool, true, false, not, ◌&&◌, ◌||◌,
  if◌then◌else◌, Option, none, some, List, [], ◌∷◌, map, ◌++◌,
}
use omarchy_vault.Disks.Inventory.{Volume, Disk, Inventory}
use omarchy_vault.Storage.Paths.{MountTable, containing, is_mount_point, join}

-- `config.Source`
pub record Source : Type 0 where
  pub path : GoString
  pub folder : GoString
  pub uuid : GoString
  pub volume : GoString
  pub label : GoString
  pub added_at : GoString

-- `Source.DataDir`
unfoldable pub data_dir : Source → GoString
data_dir s = if is_empty s.folder then s.path else join s.path s.folder

pub data State : Type 0 where
  not_set_up ready drive_missing drive_moved problem : State

pub record Usage : Type 0 where
  pub total : ℕ
  pub used : ℕ
  pub free : ℕ

pub record SourceStatus : Type 0 where
  pub label : GoString
  pub volume : GoString
  pub path : GoString
  pub folder : GoString
  pub data_dir : GoString
  pub state : State
  pub current_mount : GoString
  pub usage : Usage

-- what `os.Lstat` says of the folder
pub data Found : Type 0 where
  absent unreadable folder other : Found

-- the answers of the file system: `os.Lstat`, `filepath.EvalSymlinks` and `StatFS`
pub record Answers : Type 0 where
  pub found : Found
  pub resolved : Option GoString
  pub capacity : Option Usage

abbrev pub start : Source → SourceStatus
start s = record {
  label = if is_empty s.label then s.path else s.label;
  volume = s.volume;
  path = s.path;
  folder = s.folder;
  data_dir = data_dir s;
  state = ready;
  current_mount = [];
  usage = record { total = 0; used = 0; free = 0 };
}

abbrev pub with_state : State → SourceStatus → SourceStatus
with_state st ss = record ss { state = st }

abbrev pub later : {A : Type 0} → Option A → Option A → Option A
later (some b) a = some b
later none a = a

-- the loops that look for the volume: the last of the UUID, and whether its drive is the system's
unfoldable pub find_volume : GoString → Bool → List Volume → Option (Volume × Bool)
find_volume uuid on_system [] = none
find_volume uuid on_system (v ∷ vs) =
    later (find_volume uuid on_system vs) (if str_eq v.uuid uuid then some (v, on_system) else none)

unfoldable pub find_uuid : GoString → List Disk → Option (Volume × Bool)
find_uuid uuid [] = none
find_uuid uuid (d ∷ ds) = later (find_uuid uuid ds) (find_volume uuid d.system d.volumes)

-- a volume that is attached, but not mounted where the source says
abbrev pub misplaced : List GoString → SourceStatus → SourceStatus
misplaced [] ss = record ss { state = drive_missing }
misplaced (m ∷ ms) ss = record ss { state = drive_moved; current_mount = m }

-- the first step of `inspectSource`: a status that ends it, or `none` to go on
abbrev pub check_volume : Option (Volume × Bool) → Source → SourceStatus → Option SourceStatus
check_volume none s ss = some (with_state drive_missing ss)
check_volume (some (v, on_system)) s ss =
    if on_system
    then some (with_state problem ss)
    else if contains v.mountpoints s.path
    then none
    else some (misplaced v.mountpoints ss)

unfoldable pub attached : Source → Option Inventory → SourceStatus → Option SourceStatus
attached s none ss = none
attached s (some inv) ss =
    if is_empty s.uuid then none else check_volume (find_uuid s.uuid inv.disks) s ss

abbrev pub with_capacity : Option Usage → SourceStatus → SourceStatus
with_capacity none ss = with_state problem ss
with_capacity (some u) ss = record ss { usage = u }

abbrev pub leads_outside : MountTable → GoString → Option GoString → Bool
leads_outside t dir none = true
leads_outside t dir (some r) = not (str_eq (containing t r) (containing t dir))

-- from the third step on, for a folder that is one
abbrev pub check_folder : Found → Source → MountTable → Answers → SourceStatus → SourceStatus
check_folder folder s t a ss =
    if not (str_eq (containing t ss.data_dir) s.path)
    then with_state problem ss
    else if leads_outside t ss.data_dir a.resolved
    then with_state problem ss
    else with_capacity a.capacity ss
check_folder _ s t a ss = with_state problem ss

abbrev pub go_on : Option SourceStatus → Source → MountTable → Answers → SourceStatus → SourceStatus
go_on (some ended) s t a ss = ended
go_on none s t a ss =
    if not (is_mount_point t s.path)
    then with_state drive_missing ss
    else check_folder a.found s t a ss

-- `inspectSource`
unfoldable pub inspect_source : Source → Option Inventory → MountTable → Answers → SourceStatus
unfolding attached
inspect_source s inv t a = go_on (attached s inv (start s)) s t a (start s)

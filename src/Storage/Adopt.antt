-- ===== src/Storage/Adopt.antt =====
-- internal/storage/adopt.go: `Adopt`, which prepares the Vault folder on a drive. The two calls of
-- `os.Root` that look at and change the drive are an interface; paths are relative to the mount, those
-- in the Vault folder begin with it.
pub mod Picked
pub mod Kept
pub mod Folders
pub mod Fits
pub mod Safe
mod Tests
use omarchy_vault.Prelude.{
  ℕ, ◌++◌, GoString, codes, str_eq, is_empty, Bool, true, false, not, ◌&&◌, ◌||◌, if◌then◌else◌,
  Option, none, some, List, [], ◌∷◌, ◌≡◌, ◌≢◌, Result, ok, err,
}
use omarchy_vault.Config.Folders.{FolderError, validate_folder, slash, split}
use omarchy_vault.Disks.Inventory
use omarchy_vault.Disks.Inventory.{VolumeStatus, Volume, Disk, Inventory}
use omarchy_vault.Storage.Paths.{MountTable, containing, is_mount_point, clean, join, join_slash}
use omarchy_vault.Storage.Inspect.{Source, data_dir, later}

-- what `Lstat` says of a path
pub data Entry : Type 0 where
  missing folder file link unreadable : Entry

pub data Made : Type 0 where
  made exists failed : Made

-- `Lstat` and `Mkdir` of a drive, the only calls of `os.Root` that `Adopt` makes. `Mkdir` makes a folder
-- where nothing was and leaves what is there, or changes nothing.
pub record Root : Type 1 where
  pub Files : Type 0
  pub lstat : Files → GoString → Entry
  pub mkdir : GoString → Files → Files × Made
  pub mkdir_made :
      (rel : GoString) (s : Files)
      → (mkdir rel s).1 ≡ made
      → (lstat s rel ≡ missing)
        × (lstat (mkdir rel s).0 rel ≡ folder)
        × ((x : GoString) → lstat s x ≢ missing → lstat (mkdir rel s).0 x ≡ lstat s x)
  pub mkdir_exists :
      (rel : GoString) (s : Files)
      → (mkdir rel s).1 ≡ exists
      → (lstat s rel ≢ missing) × ((mkdir rel s).0 ≡ s)
  pub mkdir_failed : (rel : GoString) (s : Files) → (mkdir rel s).1 ≡ failed → (mkdir rel s).0 ≡ s

pub record AdoptRequest : Type 0 where
  pub volume : GoString
  pub folder : GoString
  pub create_folders : Bool

-- What else the file system answers: whether the mount and the Vault folder can be opened, and what
-- the mount and the Vault folder resolve to.
pub record AdoptAnswers : Type 0 where
  pub opens : Bool
  pub folder_opens : Bool
  pub resolved_mount : Option GoString
  pub resolved : Option GoString

pub record AdoptResult : Type 0 where
  pub source : Source
  pub made_folders : List GoString
  pub existing : List GoString
  pub skipped : List GoString

-- the codes of `AdoptError`
pub data AdoptCode : Type 0 where
  not_found not_adoptable system_disk unsafe_path unknown_system_disk io_error : AdoptCode

-- `DefaultFolders`
abbrev pub default_folders : GoString → List GoString
default_folders uploads =
    codes "Photos"
    ∷ codes "Documents"
    ∷ codes "Backups"
    ∷ codes "Projects"
    ∷ uploads
    ∷ codes "Shared"
    ∷ []

-- the loops that look for the volume: the last of the name
unfoldable pub pick_volume : GoString → Disk → List Volume → Option (Disk × Volume)
pick_volume name d [] = none
pick_volume name d (v ∷ vs) =
    later (pick_volume name d vs) (if str_eq v.name name then some (d, v) else none)

unfoldable pub pick : GoString → List Disk → Option (Disk × Volume)
unfolding pick_volume
pick name [] = none
pick name (d ∷ ds) = later (pick name ds) (pick_volume name d d.volumes)

abbrev pub is_system : VolumeStatus → Bool
is_system Inventory.VolumeStatus.system = true
is_system _ = false

abbrev pub is_ok : {A : Type 0} → Result FolderError A → Bool
is_ok (ok _) = true
is_ok (err _) = false

abbrev pub is_same : GoString → Option GoString → Bool
is_same a none = false
is_same a (some b) = str_eq b a

abbrev pub is_given : Option GoString → Bool
is_given none = false
is_given (some _) = true

abbrev pub or_empty : Option GoString → GoString
or_empty none = []
or_empty (some p) = p

module _ (R : Root) where
  abbrev pub after_mkdir : R.Files × Made → R.Files × Result AdoptCode Bool
  after_mkdir (s, made) = (s, ok true)
  after_mkdir (s, exists) = (s, ok false)
  after_mkdir (s, failed) = (s, err io_error)

  abbrev pub ensure_entry : GoString → Entry → R.Files → R.Files × Result AdoptCode Bool
  ensure_entry rel link s = (s, err unsafe_path)
  ensure_entry rel file s = (s, err unsafe_path)
  ensure_entry rel folder s = (s, ok false)
  ensure_entry rel missing s = after_mkdir (R.mkdir rel s)
  ensure_entry rel unreadable s = (s, err io_error)

  -- `ensureDir`: whether it made the folder
  unfoldable pub ensure_dir : GoString → R.Files → R.Files × Result AdoptCode Bool
  ensure_dir rel s = ensure_entry rel (R.lstat s rel) s

  abbrev pub after_part :
      (R.Files → R.Files × Result AdoptCode Bool)
      → List GoString
      → R.Files × Result AdoptCode Bool
      → R.Files × Result AdoptCode Bool
  after_part next [] (s, r) = (s, r)
  after_part next (p ∷ ps) (s, err e) = (s, err e)
  after_part next (p ∷ ps) (s, ok _) = next s

  -- the loop that makes the Vault folder, with the components that are made: whether the last is new
  unfoldable pub make_path :
      List GoString → List GoString → R.Files → R.Files × Result AdoptCode Bool
  unfolding ensure_dir clean
  make_path before [] s = (s, ok false)
  make_path before (p ∷ ps) s =
      let so_far = before ++ p ∷ [] in
      after_part (λ t. make_path so_far ps t) ps (ensure_dir (clean (join_slash so_far)) s)

  abbrev pub note_folder : GoString → Result AdoptCode Bool → AdoptResult → AdoptResult
  note_folder name (ok true) r = record r { made_folders = r.made_folders ++ name ∷ [] }
  note_folder name (ok false) r = record r { existing = r.existing ++ name ∷ [] }
  note_folder name (err _) r = record r { skipped = r.skipped ++ name ∷ [] }

  -- the loop over the default folders, in the Vault folder
  unfoldable pub make_defaults :
      GoString → List GoString → AdoptResult → R.Files → R.Files × AdoptResult
  unfolding ensure_dir join
  make_defaults vault [] r s = (s, r)
  make_defaults vault (n ∷ ns) r s =
      let step = ensure_dir (join vault n) s in
      make_defaults vault ns (note_folder n step.1 r) step.0

  abbrev pub AdoptReply : Type 0
  AdoptReply = R.Files × Result AdoptCode AdoptResult

  -- a refusal on a condition
  unfoldable pub refuse_if : Bool → AdoptCode → R.Files → AdoptReply → AdoptReply
  refuse_if c e s rest = if c then (s, err e) else rest

  abbrev pub with_ok : R.Files × AdoptResult → AdoptReply
  with_ok (s, r) = (s, ok r)

  abbrev pub finish : AdoptRequest → GoString → AdoptAnswers → AdoptResult → R.Files → AdoptReply
  finish q uploads a r s =
      if q.create_folders
      then refuse_if (not (is_empty q.folder) && not a.folder_opens) io_error s
          (with_ok (make_defaults q.folder (default_folders uploads) r s))
      else (s, ok r)

  abbrev pub wanted : AdoptRequest → AdoptAnswers → GoString
  wanted q a =
      if is_empty q.folder
      then or_empty a.resolved_mount
      else join (or_empty a.resolved_mount) q.folder

  -- the checks of the folder once it is there
  abbrev pub check_place :
      MountTable → AdoptRequest → GoString → AdoptAnswers → AdoptResult → R.Files → AdoptReply
  check_place mounts q uploads a r s = refuse_if (not (is_given a.resolved_mount)) io_error s (
      refuse_if (not (is_given a.resolved)) io_error s (
        refuse_if (not (is_same (wanted q a) a.resolved)) unsafe_path s (
          refuse_if (not (str_eq (containing mounts (data_dir r.source)) r.source.path)) unsafe_path
            s (finish q uploads a r s))))

  abbrev pub after_path :
      MountTable
      → AdoptRequest
      → GoString
      → AdoptAnswers
      → AdoptResult
      → R.Files × Result AdoptCode Bool
      → AdoptReply
  after_path mounts q uploads a r (s, err e) = (s, err e)
  after_path mounts q uploads a r (s, ok true) =
      check_place mounts q uploads a (record r { made_folders = q.folder ∷ [] }) s
  after_path mounts q uploads a r (s, ok false) = check_place mounts q uploads a r s

  abbrev pub parts_of : GoString → List GoString
  parts_of f = if is_empty f then [] else split slash f

  -- the work on the drive
  abbrev pub prepare :
      MountTable → AdoptRequest → GoString → AdoptAnswers → AdoptResult → R.Files → AdoptReply
  prepare mounts q uploads a r s =
      refuse_if (not a.opens) io_error s
        (after_path mounts q uploads a r (make_path [] (parts_of q.folder) s))

  abbrev pub new_result : AdoptRequest → GoString → Disk → Volume → GoString → AdoptResult
  new_result q stamp d v mount = record {
    source = record {
      path = mount;
      folder = q.folder;
      uuid = v.uuid;
      volume = v.name;
      label = d.display_name;
      added_at = stamp;
    };
    made_folders = [];
    existing = [];
    skipped = [];
  }

  abbrev pub adopt_at :
      MountTable
      → AdoptRequest
      → GoString
      → GoString
      → AdoptAnswers
      → Disk
      → Volume
      → List GoString
      → R.Files
      → AdoptReply
  adopt_at mounts q uploads stamp a d v [] s = (s, err not_adoptable)
  adopt_at mounts q uploads stamp a d v (mount ∷ _) s =
      refuse_if (not v.adoptable) not_adoptable s (
        refuse_if (not (is_mount_point mounts mount)) not_adoptable s
          (prepare mounts q uploads a (new_result q stamp d v mount) s))

  abbrev pub adopt_volume :
      MountTable
      → AdoptRequest
      → GoString
      → GoString
      → AdoptAnswers
      → Option (Disk × Volume)
      → R.Files
      → AdoptReply
  adopt_volume mounts q uploads stamp a none s = (s, err not_found)
  adopt_volume mounts q uploads stamp a (some (d, v)) s =
      refuse_if (d.system || (d.is_protected || is_system v.status)) system_disk s
        (adopt_at mounts q uploads stamp a d v v.mountpoints s)

  -- `Adopt`, with the time as text
  unfoldable pub adopt :
      Option Inventory
      → MountTable
      → AdoptRequest
      → GoString
      → GoString
      → AdoptAnswers
      → R.Files
      → AdoptReply
  unfolding pick make_path make_defaults is_mount_point containing validate_folder join data_dir
  adopt none mounts q uploads stamp a s = (s, err unknown_system_disk)
  adopt (some inv) mounts q uploads stamp a s =
      refuse_if (not inv.system_disk_detected) unknown_system_disk s (
        refuse_if (not (is_ok (validate_folder q.folder))) unsafe_path s
          (adopt_volume mounts q uploads stamp a (pick q.volume inv.disks) s))

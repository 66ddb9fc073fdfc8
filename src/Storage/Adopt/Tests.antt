-- ===== src/Storage/Adopt/Tests.antt =====
-- internal/storage/adopt.go: the data drive of the machine becomes a Vault. One of its folders is taken
-- by a file.
use omarchy_vault.Prelude.{
  ◌≡◌, ◌≢◌, refl, ap, ◌∙◌, str_eq_refl, All, inl, inr, GoString, codes, str_eq, str_eq_iff,
  contains, has_prefix, true, false, if-false, if◌then◌else◌, Bool-cases, some, [], ◌∷◌, In, ok,
  arith,
}
use omarchy_vault.Config.Folders.{
  validate_folder, split, ends_with, check_component, check_components,
}
use omarchy_vault.Disks.Inventory.{Volume, Disk}
use omarchy_vault.Disks.Display.{display_name, kind_of}
use omarchy_vault.Disks.Names.{is_system_mount, is_reserved_target, caveat, is_container}
use omarchy_vault.Disks.Lsblk.{mounts}
use omarchy_vault.Disks.Volumes.{
  collect_volumes, raw_volume, classify_volume, classify_supported, classify_mounted,
}
use omarchy_vault.Disks.Volumes.Offered.{IsSafe}
use omarchy_vault.Disks.Build.{build_disk, walk, absent}
use omarchy_vault.Disks.Machine.{machine, inventory, built}
use omarchy_vault.Storage.Paths.{
  MountTable, containing, longest, trim_slash, is_mount_point, clean, join, push_components,
  join_slash,
}
use omarchy_vault.Storage.Inspect.{data_dir}
use omarchy_vault.Storage.Adopt.{
  Entry, missing, folder, file, Made, made, exists, Root, AdoptRequest, AdoptAnswers, AdoptResult,
  pick, pick_volume, ensure_dir, make_path, parts_of, make_defaults, refuse_if, adopt,
}
use omarchy_vault.Storage.Adopt.Folders.{WasMade, paths}
use omarchy_vault.Storage.Adopt.Safe.{IsOffered, lstat-adopt, adopt-build}

abbrev Tree : Type 0
Tree = GoString → Entry

abbrev put : GoString → Tree → Tree
put name s = λ x. if str_eq x name then folder else s x

abbrev make_at : Entry → GoString → Tree → Tree × Made
make_at missing name s = (put name s, made)
make_at _ name s = (s, exists)

make_at-made :
    (e : Entry) (name : GoString) (s : Tree)
    → s name ≡ e
    → (make_at e name s).1 ≡ made
    → (s name ≡ missing)
      × ((make_at e name s).0 name ≡ folder)
      × ((x : GoString) → s x ≢ missing → (make_at e name s).0 x ≡ s x)
make_at-made missing name s at h = (
  at,
  rw str_eq_refl refl,
  λ x there. elim (Bool-cases (str_eq x name)) [
    | inl same ↦ absurd (there (ap s ((str_eq_iff x name).0 same) ∙ at))
    | inr off ↦ if-false _ _ off
  ],
)
make_at-made folder name s at h = absurd (ground arith)
make_at-made file name s at h = absurd (ground arith)
make_at-made Entry.link name s at h = absurd (ground arith)
make_at-made Entry.unreadable name s at h = absurd (ground arith)

make_at-exists :
    (e : Entry) (name : GoString) (s : Tree)
    → s name ≡ e
    → (make_at e name s).1 ≡ exists
    → (s name ≢ missing) × ((make_at e name s).0 ≡ s)
make_at-exists missing name s at h = absurd (ground arith)
make_at-exists folder name s at h = ((λ free. absurd (ground arith)), refl)
make_at-exists file name s at h = ((λ free. absurd (ground arith)), refl)
make_at-exists Entry.link name s at h = ((λ free. absurd (ground arith)), refl)
make_at-exists Entry.unreadable name s at h = ((λ free. absurd (ground arith)), refl)

make_at-failed :
    (e : Entry) (name : GoString) (s : Tree)
    → (make_at e name s).1 ≡ Made.failed
    → (make_at e name s).0 ≡ s
make_at-failed missing name s h = absurd (ground arith)
make_at-failed folder name s h = refl
make_at-failed file name s h = refl
make_at-failed Entry.link name s h = refl
make_at-failed Entry.unreadable name s h = refl

abbrev drive : Root
drive = record {
  Files = Tree;
  lstat = λ s x. s x;
  mkdir = λ name s. make_at (s name) name s;
  mkdir_made = λ name s. make_at-made (s name) name s refl;
  mkdir_exists = λ name s. make_at-exists (s name) name s refl;
  mkdir_failed = λ name s. make_at-failed (s name) name s;
}

-- The drive has a file of the name of a default folder.
abbrev files : Tree
files = λ x. if str_eq x (codes "Vault/Photos") then file else missing

abbrev request : AdoptRequest
request = record { volume = codes "sdb1"; folder = codes "Vault"; create_folders = true }

abbrev answers : AdoptAnswers
answers = record {
  opens = true;
  folder_opens = true;
  resolved_mount = some (codes "/mnt/data");
  resolved = some (codes "/mnt/data/Vault");
}

abbrev table : MountTable
table = codes "/" ∷ codes "/mnt/data" ∷ []

abbrev result : AdoptResult
result = record {
  source = record {
    path = codes "/mnt/data";
    folder = codes "Vault";
    uuid = [];
    volume = codes "sdb1";
    label = codes "Drive sdb";
    added_at = codes "t1";
  };
  made_folders =
      codes "Vault"
      ∷ codes "Documents"
      ∷ codes "Backups"
      ∷ codes "Projects"
      ∷ codes "Uploads"
      ∷ codes "Shared"
      ∷ [];
  existing = [];
  skipped = codes "Photos" ∷ [];
}

adopted :
    (adopt drive (some inventory) table request (codes "Uploads") (codes "t1") answers files).1
    ≡ ok result
unfolding adopt refuse_if pick pick_volume make_path make_defaults ensure_dir build_disk
    collect_volumes walk raw_volume classify_volume classify_supported classify_mounted has_prefix
    str_eq contains is_system_mount is_reserved_target caveat is_container mounts validate_folder
    split ends_with check_component check_components containing longest trim_slash is_mount_point
    clean join push_components join_slash data_dir display_name kind_of
adopted = refl

lstat-adopt_example :
    All
      (WasMade drive files
        (adopt drive (some inventory) table request (codes "Uploads") (codes "t1") answers files).0)
      (paths drive [] (parts_of drive (codes "Vault")))
lstat-adopt_example =
    lstat-adopt drive (some inventory) table request (codes "Uploads") (codes "t1") answers files
      result adopted

adopt-build_example :
    IsOffered drive inventory table request result.source
    × ((d : Disk) × (v : Volume) × In d inventory.disks
        × In v d.volumes
        × (v.name ≡ codes "sdb1")
        × In (codes "/mnt/data") v.mountpoints
        × (d.system ≡ false)
        × (d.read_only ≡ false)
        × IsSafe v)
adopt-build_example =
    adopt-build drive machine absent inventory table request (codes "Uploads") (codes "t1") answers
      files result built adopted

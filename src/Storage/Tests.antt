-- ===== src/Storage/Tests.antt =====
-- internal/storage: a drive that is where the configuration says.
use omarchy_vault.Prelude.{◌≡◌, refl, codes, str_eq, has_prefix, true, false, some, [], ◌∷◌}
use omarchy_vault.Config.Folders.{split}
use omarchy_vault.Disks.Inventory.{Volume, VolumeStatus, Inventory}
use omarchy_vault.Disks.Build.{build_disk}
use omarchy_vault.Disks.Machine.{data_drive, inventory}
use omarchy_vault.Storage.Paths.{MountTable, clean, push_components, join_slash}
use omarchy_vault.Storage.Inspect.{Source, Answers, Found}

abbrev drive : Source
drive = record {
  path = codes "/mnt/d";
  folder = codes "Vault";
  uuid = codes "1a2b";
  volume = codes "sdb1";
  label = codes "Data";
  added_at = [];
}

abbrev volume : Volume
volume = record {
  name = codes "sdb1";
  path = codes "/dev/sdb1";
  type = codes "part";
  fstype = codes "ext4";
  label = codes "Data";
  uuid = codes "1a2b";
  size_bytes = 1000;
  mountpoints = codes "/mnt/d" ∷ [];
  fs_size = 900;
  fs_used = 40;
  fs_avail = 60;
  status = VolumeStatus.mounted;
  adoptable = true;
  notes = [];
}

-- The data drive is attached, with this volume.
abbrev shown : Inventory
shown = record inventory {
  disks = record (build_disk [] [] data_drive) { system = false; volumes = volume ∷ [] } ∷ [];
}

abbrev table : MountTable
table = codes "/" ∷ codes "/mnt/d" ∷ []

abbrev answers : Answers
answers = record {
  found = Found.folder;
  resolved = some (codes "/mnt/d/Vault");
  capacity = some (record { total = 100; used = 40; free = 60 });
}

cleaned : clean (codes "/mnt//d/./x/../Vault/") ≡ codes "/mnt/d/Vault"
unfolding clean push_components join_slash split str_eq has_prefix
cleaned = refl

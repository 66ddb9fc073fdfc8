-- ===== src/Disks/Tests.antt =====
-- internal/disks/disks.go: what the inventory of a machine shows.
use omarchy_vault.Prelude.{
  ◌≡◌, ◌≢◌, arith, str_eq_iff, GoString, refl, codes, str_eq, has_prefix, contains, true, false,
  ◌↔◌, inl, inr, All, In, [],
}
use omarchy_vault.Disks.Lsblk.{Device, device, mounts}
use omarchy_vault.Disks.Names.{is_system_mount, is_reserved_target, caveat, is_container}
use omarchy_vault.Disks.Inventory.{Disk}
use omarchy_vault.Disks.Volumes.{
  collect_volumes, raw_volume, classify_volume, classify_supported, classify_mounted,
}
use omarchy_vault.Disks.Build.{build_disk, walk, absent, sources_of}
use omarchy_vault.Disks.Build.Protection.{
  Below, root, under, first, HoldsSystem, system-build_disk_iff,
}
use omarchy_vault.Disks.Build.Offers.{OffersOnly, IsDrive, build-OffersOnly, build_protects}
use omarchy_vault.Disks.Machine.{root_part, system_drive, data_drive, machine, inventory, built}

root_is_system : is_system_mount (codes "/") ≡ true
unfolding is_system_mount contains str_eq
root_is_system = refl

holds_root : HoldsSystem [] root_part
unfolding mounts contains
holds_root = inl (codes "/", inl refl, root_is_system)

system-build_disk_iff_example :
    ((build_disk [] [] system_drive).system ≡ true)
    ↔ ((x : Device) × Below system_drive x × HoldsSystem [] x)
system-build_disk_iff_example = system-build_disk_iff [] [] system_drive

build-OffersOnly_example : OffersOnly true (build_disk [] [] data_drive)
build-OffersOnly_example =
    build-OffersOnly machine absent inventory (build_disk [] [] data_drive) built (inr (inl refl))

-- The data volume is offered, so the last theorem is not empty here.
data_offered : (build_disk [] [] data_drive).adoptable ≡ true
unfolding build_disk collect_volumes walk raw_volume classify_volume classify_supported
    classify_mounted has_prefix str_eq contains is_system_mount is_reserved_target caveat
    is_container mounts
data_offered = refl

apart : (a b : GoString) → str_eq a b ≡ false → a ≢ b
apart a b h e = ground (arith, str_eq_iff a b)

system_drive-IsDrive : IsDrive (device system_drive)
unfolding has_prefix str_eq
system_drive-IsDrive = (
  apart _ (codes "loop") refl,
  apart _ (codes "rom") refl,
  apart _ (codes "ram") refl,
  refl,
  refl,
  λ c. absurd (omega arith),
)

build_protects_example :
    (d : Disk) × In d inventory.disks
    × (d.name ≡ codes "sda")
    × (d.system ≡ true)
    × All (λ v. v.adoptable ≡ false) d.volumes
unfolding sources_of
build_protects_example =
    build_protects machine absent inventory system_drive root_part built (inr (inl refl))
      system_drive-IsDrive (under (first root)) holds_root

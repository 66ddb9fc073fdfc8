-- ===== src/Disks/Names.antt =====
-- internal/disks/disks.go: the tables of mount targets and filesystems.
use omarchy_vault.Prelude.{
  GoString, codes, str_eq, has_prefix, contains, Bool, true, false, ◌||◌, any, Option, List, [],
  ◌∷◌, ◌++◌,
}
use omarchy_vault.Prelude.Dict

abbrev system_mounts : List GoString
system_mounts =
    codes "/"
    ∷ codes "/boot"
    ∷ codes "/boot/efi"
    ∷ codes "/efi"
    ∷ codes "/usr"
    ∷ codes "/var"
    ∷ codes "/home"
    ∷ codes "[SWAP]"
    ∷ []

abbrev reserved_prefixes : List GoString
reserved_prefixes =
    codes "/boot"
    ∷ codes "/efi"
    ∷ codes "/usr"
    ∷ codes "/etc"
    ∷ codes "/var"
    ∷ codes "/proc"
    ∷ codes "/sys"
    ∷ codes "/dev"
    ∷ codes "/root"
    ∷ codes "/tmp"
    ∷ codes "/bin"
    ∷ codes "/sbin"
    ∷ codes "/lib"
    ∷ codes "/lib64"
    ∷ []

-- `fsSupport`: whether the filesystem has a caveat
abbrev fs_support : List (GoString × Bool)
fs_support =
    (codes "ext4", false)
    ∷ (codes "ext3", false)
    ∷ (codes "xfs", false)
    ∷ (codes "btrfs", false)
    ∷ (codes "f2fs", false)
    ∷ (codes "exfat", true)
    ∷ (codes "vfat", true)
    ∷ (codes "ntfs", true)
    ∷ (codes "ntfs3", true)
    ∷ (codes "fuseblk", true)
    ∷ []

abbrev container_fs : List GoString
container_fs =
    codes "crypto_LUKS"
    ∷ codes "LVM2_member"
    ∷ codes "linux_raid_member"
    ∷ codes "zfs_member"
    ∷ codes "bcache"
    ∷ []

unfoldable pub is_system_mount : GoString → Bool
is_system_mount target = contains system_mounts target || has_prefix target (codes "/boot/")

unfoldable pub is_reserved_target : GoString → Bool
is_reserved_target target =
    str_eq target (codes "/")
    || (str_eq target (codes "/home")
        || (has_prefix target (codes "[")
            || any (λ p. str_eq target p || has_prefix target (p ++ codes "/")) reserved_prefixes))

-- The caveat flag of a supported filesystem, `none` for any other.
unfoldable pub caveat : GoString → Option Bool
unfolding Dict.lookup
caveat fstype = Dict.lookup fstype fs_support

unfoldable pub is_container : GoString → Bool
is_container fstype = contains container_fs fstype

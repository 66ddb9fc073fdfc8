-- ===== src/Disks/Display.antt =====
-- internal/disks/disks.go: names for people. White space and letter case are those of ASCII.
use mathlib.Core.List.{reverse}
use omarchy_vault.Prelude.{
  ℕ, ◌+◌, GoString, codes, str_eq, is_empty, has_prefix, Bool, true, false, not, ◌&&◌, ◌||◌, leb,
  ◌==◌, [], ◌∷◌, ◌++◌, map, if◌then◌else◌,
}
use omarchy_vault.Disks.Lsblk.{Device}

is_space : ℕ → Bool
is_space c = c == 32 || (leb 9 c && leb c 13)

trim_left : GoString → GoString
trim_left [] = []
trim_left (c ∷ s) = let rest = trim_left s in if is_space c then rest else c ∷ s

-- `strings.TrimSpace`
unfoldable pub trim_space : GoString → GoString
unfolding trim_left is_space
trim_space s = reverse (trim_left (reverse (trim_left s)))

-- `strings.Join(strings.Fields(s), " ")`: the words, with one space between two.
join_from : Bool → GoString → GoString
join_from gap [] = []
join_from gap (c ∷ s) =
    let skipped = join_from true s in
    let kept = c ∷ join_from false s in
    if is_space c then skipped else if gap then 32 ∷ kept else kept

join_fields : GoString → GoString
unfolding join_from trim_left is_space
join_fields s = join_from false (trim_left s)

to_lower : GoString → GoString
to_lower = map (λ c. if leb b'A' c && leb c b'Z' then c + 32 else c)

-- `kindOf`
unfoldable pub kind_of : Device → GoString
kind_of d =
    if str_eq d.tran (codes "nvme") || has_prefix d.name (codes "nvme")
    then codes "nvme"
    else if str_eq d.tran (codes "usb")
    then codes "usb"
    else if str_eq d.tran (codes "virtio") || has_prefix d.name (codes "vd")
    then codes "virtual"
    else if has_prefix d.name (codes "mmcblk")
    then codes "sd"
    else if d.rota
    then codes "hdd"
    else codes "ssd"

name_of_kind : GoString → GoString → GoString
name_of_kind kind name =
    if str_eq kind (codes "nvme")
    then codes "NVMe drive"
    else if str_eq kind (codes "usb")
    then codes "USB drive"
    else if str_eq kind (codes "virtual")
    then codes "Virtual disk"
    else if str_eq kind (codes "sd")
    then codes "SD card"
    else if str_eq kind (codes "hdd")
    then codes "Hard drive"
    else codes "Drive " ++ name

display_with : GoString → GoString → GoString → GoString → GoString
unfolding join_fields trim_space to_lower name_of_kind
display_with vendor model kind name =
    let joined = trim_space (join_fields (vendor ++ 32 ∷ model)) in
    let title =
      if not (is_empty vendor) && has_prefix (to_lower model) (to_lower vendor)
      then model
      else joined in
    if not (is_empty title) && not (str_eq (to_lower vendor) (codes "ata"))
    then title
    else if not (is_empty model)
    then model
    else name_of_kind kind name

-- `displayName`
unfoldable pub display_name : GoString → GoString → GoString → GoString → GoString
unfolding display_with
display_name vendor model kind name =
    display_with (if has_prefix vendor (codes "0x") then [] else vendor) model kind name

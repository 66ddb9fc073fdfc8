-- ===== src/Disks/Build/Offers.antt =====
-- internal/disks/disks.go: what an inventory offers as Vault storage.
use omarchy_vault.Prelude.{
  ◌≡◌, ◌≢◌, codes, str_eq_iff, has_prefix, if-true, if-false, refl, sym, ap, subst, ◌↔◌, ◌⊎◌, inl,
  inr, GoString, Bool, true, false, any, map, All, In, In-map, some, List, [], ◌∷◌, arith,
  if◌then◌else◌, Bool-cases,
}
use mathlib.Core.Option.{some-injective}
use omarchy_vault.Disks.Lsblk.{Device, Node, Nodes, nil, cons, MountMap, device}
use omarchy_vault.Disks.Inventory.{Disk, Volume, Inventory}
use omarchy_vault.Disks.Volumes.Offered.{IsSafe, OfferedIf, collect-OfferedIf}
use omarchy_vault.Disks.Build.{
  build_disk, withdraw, withdraw_volume, insert_disk, sort_disks, build, Findmnt, mount_map,
  sources_of, top_nodes, skip_top_level,
}
use omarchy_vault.Disks.Build.Protection.{Below, HoldsSystem, system-build_disk_iff}

In-insert_disk : (a d : Disk) (ds : List Disk) → In a (insert_disk d ds) ↔ ((a ≡ d) ⊎ In a ds)
unfolding insert_disk
In-insert_disk a d [] = (λ m. m, λ m. m)
In-insert_disk a d (x ∷ xs) = grind (arith, In-insert_disk a d xs)

-- Sorting neither loses nor adds a drive.
pub In-sort_disks : (a : Disk) (ds : List Disk) → In a (sort_disks ds) ↔ In a ds
unfolding sort_disks
In-sort_disks a [] = (λ m. m, λ m. m)
In-sort_disks a (d ∷ ds) = grind (arith, In-insert_disk a d (sort_disks ds), In-sort_disks a ds)

-- What Vault promises of each volume of a drive that it offers as storage: the inventory knows the
-- system drive, this drive is another and not read-only, and the volume is safe to adopt.
abbrev pub OffersOnly : Bool → Disk → Type 0
OffersOnly detected d =
    All
      (λ v.
        v.adoptable ≡ true
        → (detected ≡ true) × (d.system ≡ false) × (d.read_only ≡ false) × IsSafe v)
      d.volumes

offers_built :
    (sources : List GoString) (table : MountMap) (n : Node)
    → OffersOnly true (build_disk sources table n)
unfolding build_disk
offers_built sources table n = weaken _ _ _ (collect-OfferedIf _ table (device n).ro n)
  where
    weaken :
        (b c : Bool) (vs : List Volume)
        → All (OfferedIf b c) vs
        → All
            (λ v.
              v.adoptable ≡ true
              → (◌≡◌ {A = Bool} true true) × (b ≡ false) × (c ≡ false) × IsSafe v)
            vs
    weaken b c [] h = tt
    weaken b c (v ∷ vs) (q, h) = (λ e. let (x, y, z) = q e in (refl, x, y, z), weaken b c vs h)

none_offered : (vs : List Volume) → All (λ v. v.adoptable ≡ false) (map withdraw_volume vs)
none_offered [] = tt
none_offered (v ∷ vs) = (refl, none_offered vs)

offers_withdrawn : (d : Disk) → OffersOnly false (withdraw d)
unfolding withdraw
offers_withdrawn d = go d.volumes
  where
    go :
        (vs : List Volume)
        → All
            (λ v.
              v.adoptable ≡ true
              → (◌≡◌ {A = Bool} false true) × (d.system ≡ false) × (d.read_only ≡ false) × IsSafe v)
            (map withdraw_volume vs)
    go [] = tt
    go (v ∷ vs) = (λ e. cc, go vs)

-- the drives before sorting
abbrev built : Nodes → Findmnt → List Disk
built nodes findmnt =
    map (build_disk (sources_of (mount_map findmnt)) (mount_map findmnt)) (top_nodes nodes)

build_inv :
    (nodes : Nodes) (findmnt : Findmnt) (inv : Inventory)
    → build (some nodes) findmnt ≡ some inv
    → (inv.system_disk_detected ≡ any (λ d. d.system) (built nodes findmnt))
      × (inv.disks
          ≡ sort_disks (
              if any (λ d. d.system) (built nodes findmnt)
              then built nodes findmnt
              else map withdraw (built nodes findmnt)))
unfolding build
build_inv nodes findmnt inv e =
    let same = some-injective _ inv e in
    (
      sym (ap (λ (i : Inventory). i.system_disk_detected) same),
      sym (ap (λ (i : Inventory). i.disks) same),
    )

offers_listed :
    (nodes : Nodes) (findmnt : Findmnt) (b : Bool) (d : Disk)
    → In d (if b then built nodes findmnt else map withdraw (built nodes findmnt))
    → OffersOnly b d
offers_listed nodes findmnt true d i =
    let (n, _, e) = (In-map _ d (top_nodes nodes)).0 i in
    subst (OffersOnly true) e (offers_built _ _ n)
offers_listed nodes findmnt false d i =
    let (d', _, e) = (In-map withdraw d (built nodes findmnt)).0 i in
    subst (OffersOnly false) e (offers_withdrawn d')

-- Every volume that an inventory offers as storage is on a drive that does not hold the operating
-- system and is not read-only, the system drive is known, and the volume is mounted, nowhere
-- reserved, with a supported filesystem.
pub build-OffersOnly :
    (nodes : Nodes) (findmnt : Findmnt) (inv : Inventory) (d : Disk)
    → build (some nodes) findmnt ≡ some inv
    → In d inv.disks
    → OffersOnly inv.system_disk_detected d
build-OffersOnly nodes findmnt inv d e i =
    let (detected, disks) = build_inv nodes findmnt inv e in
    rw detected (offers_listed nodes findmnt _ d ((In-sort_disks d _).0 (subst (In d) disks i)))

system_kept :
    (nodes : Nodes) (findmnt : Findmnt) (b : Bool) (n : Node)
    → In n (top_nodes nodes)
    → (build_disk (sources_of (mount_map findmnt)) (mount_map findmnt) n).system ≡ true
    → (d : Disk) × In d (if b then built nodes findmnt else map withdraw (built nodes findmnt))
      × (d.name ≡ (device n).name)
      × (d.system ≡ true)
system_kept nodes findmnt true n i h =
    (build_disk _ _ n, (In-map _ _ _).1 (n, i, refl), unfold build_disk in refl, h)
system_kept nodes findmnt false n i h = (
  withdraw (build_disk _ _ n),
  (In-map withdraw _ _).1 (build_disk _ _ n, (In-map _ _ _).1 (n, i, refl), refl),
  unfold build_disk withdraw in refl,
  unfold withdraw in h,
)

nothing_offered :
    (b : Bool) (d : Disk)
    → d.system ≡ true
    → OffersOnly b d
    → All (λ v. v.adoptable ≡ false) d.volumes
nothing_offered b d h offers = go d.volumes offers
  where
    go :
        (vs : List Volume)
        → All
            (λ v.
              v.adoptable ≡ true
              → (b ≡ true) × (d.system ≡ false) × (d.read_only ≡ false) × IsSafe v)
            vs
        → All (λ v. v.adoptable ≡ false) vs
    go [] k = tt
    go (v ∷ vs) (q, k) = (
      elim (Bool-cases v.adoptable) [
        | inl offered ↦ let (_, other, _, _) = q offered in cc
        | inr kept ↦ kept
      ],
      go vs k,
    )

-- lsblk lists the node at the top level.
abbrev pub Listed : Node → Nodes → Type 0
Listed n nil = ⊥
Listed n (cons m ns) = (n ≡ m) ⊎ Listed n ns

-- The device has a size, and is no loop device, optical drive, ramdisk or compressed swap.
abbrev pub IsDrive : Device → Type 0
IsDrive d =
    (d.type ≢ codes "loop")
    × (d.type ≢ codes "rom")
    × (d.type ≢ codes "ram")
    × (has_prefix d.name (codes "zram") ≡ false)
    × (has_prefix d.name (codes "ram") ≡ false)
    × (d.size ≢ 0)

IsDrive-skip_top_level : (d : Device) → IsDrive d → skip_top_level d ≡ false
unfolding skip_top_level
IsDrive-skip_top_level d (no_loop, no_rom, no_ram, no_zram, no_ramdisk, full) = ground (
  arith,
  str_eq_iff d.type (codes "loop"),
  str_eq_iff d.type (codes "rom"),
  str_eq_iff d.type (codes "ram"),
)

In-top_nodes :
    (n : Node) (ns : Nodes) → skip_top_level (device n) ≡ false → Listed n ns → In n (top_nodes ns)
unfolding top_nodes
In-top_nodes n nil kept x = absurd x
In-top_nodes n (cons m ns) kept (inl here) =
    subst (λ k. In n (if skip_top_level (device k) then top_nodes ns else k ∷ top_nodes ns)) here
      (subst (In n) (sym (if-false _ _ kept)) (inl refl))
In-top_nodes n (cons m ns) kept (inr later) = elim (Bool-cases (skip_top_level (device m))) [
  | inl skipped ↦ subst (In n) (sym (if-true _ _ skipped)) (In-top_nodes n ns kept later)
  | inr stays ↦ subst (In n) (sym (if-false _ _ stays)) (inr (In-top_nodes n ns kept later))
]

-- A drive that lsblk lists at the top level, with a size and neither a loop device, an optical drive, a
-- ramdisk nor compressed swap, on which some device holds the operating system, is in the inventory
-- under its name, is marked SYSTEM, and no volume of it is offered.
pub build_protects :
    (nodes : Nodes) (findmnt : Findmnt) (inv : Inventory) (n : Node) (x : Device)
    → build (some nodes) findmnt ≡ some inv
    → Listed n nodes
    → IsDrive (device n)
    → Below n x
    → HoldsSystem (sources_of (mount_map findmnt)) x
    → (d : Disk) × In d inv.disks
      × (d.name ≡ (device n).name)
      × (d.system ≡ true)
      × All (λ v. v.adoptable ≡ false) d.volumes
build_protects nodes findmnt inv n x e at_top drive below holds =
    let i = In-top_nodes n nodes (IsDrive-skip_top_level (device n) drive) at_top in
    let (_, disks) = build_inv nodes findmnt inv e in
    let (d, j, named, sys) =
      system_kept nodes findmnt (any (λ d. d.system) (built nodes findmnt)) n i
        ((system-build_disk_iff _ _ n).1 (x, below, holds)) in
    let listed : In d inv.disks = subst (In d) (sym disks) ((In-sort_disks d _).1 j) in
    (d, listed, named, sys, nothing_offered _ d sys (build-OffersOnly nodes findmnt inv d e listed))

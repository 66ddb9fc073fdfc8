-- ===== src/Disks/Build/Protection.antt =====
-- internal/disks/disks.go: the drive that holds the operating system is never offered.
use omarchy_vault.Prelude.{
  ◌≡◌, refl, ◌↔◌, ◌⊎◌, inl, inr, GoString, contains, true, In, In-filter, In-of_filter,
  In-append_left, In-append_right, In-append_cases, List, [], ◌∷◌,
}
use omarchy_vault.Disks.Lsblk.{Device, Node, node, Nodes, nil, cons, MountMap, mounts}
use omarchy_vault.Disks.Names.{is_system_mount}
use omarchy_vault.Disks.Build.{
  walk, walk_children, system_hits, device_hits, node_paths, or_else, not_nil, build_disk,
}

-- the device of a node of the subtree
mutual
  pub data Below : Node → Device → Type 0 where
    root : {d : Device} {ns : Nodes} → Below (node d ns) d
    under : {d x : Device} {ns : Nodes} → BelowAny ns x → Below (node d ns) x

  pub data BelowAny : Nodes → Device → Type 0 where
    first : {n : Node} {ns : Nodes} {x : Device} → Below n x → BelowAny (cons n ns) x
    later : {n : Node} {ns : Nodes} {x : Device} → BelowAny ns x → BelowAny (cons n ns) x

module _ (hit : Device → List GoString) (s : GoString) where
  mutual
    unfolding walk

    walk_sound : (n : Node) → In s (walk hit n) → (x : Device) × Below n x × In s (hit x)
    walk_sound (node d ns) m = elim (In-append_cases s (hit d) (walk_children hit ns) m) [
      | inl here ↦ (d, root, here)
      | inr deep ↦ let (x, b, i) = walk_children_sound ns deep in (x, under b, i)
    ]

    walk_children_sound :
        (ns : Nodes) → In s (walk_children hit ns) → (x : Device) × BelowAny ns x × In s (hit x)
    walk_children_sound nil m = elim m [ ]
    walk_children_sound (cons n ns) m =
        elim (In-append_cases s (walk hit n) (walk_children hit ns) m) [
          | inl here ↦ let (x, b, i) = walk_sound n here in (x, first b, i)
          | inr deep ↦ let (x, b, i) = walk_children_sound ns deep in (x, later b, i)
        ]

  mutual
    unfolding walk

    walk_complete : {n : Node} {x : Device} → Below n x → In s (hit x) → In s (walk hit n)
    walk_complete (root {d} {ns}) i = In-append_left s (hit d) (walk_children hit ns) i
    walk_complete (under {d} {ns} b) i =
        In-append_right s (hit d) (walk_children hit ns) (walk_children_complete b i)

    walk_children_complete :
        {ns : Nodes} {x : Device} → BelowAny ns x → In s (hit x) → In s (walk_children hit ns)
    walk_children_complete (first {n} {ns} b) i =
        In-append_left s (walk hit n) (walk_children hit ns) (walk_complete b i)
    walk_children_complete (later {n} {ns} b) i =
        In-append_right s (walk hit n) (walk_children hit ns) (walk_children_complete b i)

In-not_nil : (s : GoString) (xs : List GoString) → In s xs → not_nil xs ≡ true
In-not_nil s [] m = elim m [ ]
In-not_nil s (x ∷ xs) m = refl

not_nil-or_else :
    (xs ys : List GoString)
    → not_nil (or_else xs ys) ≡ true
    → (not_nil xs ≡ true) ⊎ (not_nil ys ≡ true)
not_nil-or_else [] ys h = inr h
not_nil-or_else (x ∷ xs) ys h = inl refl

or_else_left : (xs ys : List GoString) → not_nil xs ≡ true → not_nil (or_else xs ys) ≡ true
or_else_left [] ys h = cc
or_else_left (x ∷ xs) ys h = refl

or_else_right : (xs ys : List GoString) → not_nil ys ≡ true → not_nil (or_else xs ys) ≡ true
or_else_right [] ys h = h
or_else_right (x ∷ xs) ys h = refl

head_of : (xs : List GoString) → not_nil xs ≡ true → (s : GoString) × In s xs
head_of [] h = cc
head_of (x ∷ xs) h = (x, inl refl)

-- A device that holds the operating system: one of its mounts is a system mount, or the mount table
-- names it as the source of one.
abbrev pub HoldsSystem : List GoString → Device → Type 0
HoldsSystem sources x =
    ((m : GoString) × In m (mounts x) × (is_system_mount m ≡ true))
    ⊎ ((p : GoString) × In p (node_paths x) × (contains sources p ≡ true))

-- `buildDisk` marks a drive as SYSTEM exactly when the drive or something on it holds the operating
-- system.
pub system-build_disk_iff :
    (sources : List GoString) (table : MountMap) (n : Node)
    → ((build_disk sources table n).system ≡ true)
      ↔ ((x : Device) × Below n x × HoldsSystem sources x)
unfolding build_disk
system-build_disk_iff sources table n = (to, from)
  where
    found_mount :
        (s : GoString) × In s (walk system_hits n)
        → (x : Device) × Below n x × HoldsSystem sources x
    found_mount (s, i) =
        let (x, b, k) = walk_sound system_hits s n i in
        let (j, e) = In-of_filter is_system_mount s (mounts x) k in (x, b, inl (s, j, e))

    found_device :
        (s : GoString) × In s (walk (device_hits sources) n)
        → (x : Device) × Below n x × HoldsSystem sources x
    found_device (s, i) =
        let (x, b, k) = walk_sound (device_hits sources) s n i in
        let (j, e) = In-of_filter (contains sources) s (node_paths x) k in (x, b, inr (s, j, e))

    to :
        not_nil (or_else (walk system_hits n) (walk (device_hits sources) n)) ≡ true
        → (x : Device) × Below n x × HoldsSystem sources x
    to h = elim (not_nil-or_else (walk system_hits n) (walk (device_hits sources) n) h) [
      | inl a ↦ found_mount (head_of _ a)
      | inr b ↦ found_device (head_of _ b)
    ]

    from :
        (x : Device) × Below n x × HoldsSystem sources x
        → not_nil (or_else (walk system_hits n) (walk (device_hits sources) n)) ≡ true
    from (x, b, inl (m, i, e)) = or_else_left (walk system_hits n) (walk (device_hits sources) n) (
        In-not_nil m _ (walk_complete system_hits m b (In-filter is_system_mount m (mounts x) i e)))
    from (x, b, inr (p, i, e)) = or_else_right (walk system_hits n) (walk (device_hits sources) n) (
        In-not_nil p _ (
          walk_complete (device_hits sources) p b
            (In-filter (contains sources) p (node_paths x) i e)))

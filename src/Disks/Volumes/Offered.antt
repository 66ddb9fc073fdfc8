-- ===== src/Disks/Volumes/Offered.antt =====
-- internal/disks/disks.go: which volumes `classifyVolume` and `collectVolumes` offer.
use omarchy_vault.Prelude.{
  ◌≡◌, ◌≢◌, refl, ap, GoString, Bool, true, false, not, ◌||◌, find?, All, All-append, Option, none,
  some, List, [], ◌∷◌, arith, if◌then◌else◌, Bool-cases, inl, inr,
}
use omarchy_vault.Disks.Lsblk.{Device, Node, node, Nodes, nil, cons, MountMap}
use omarchy_vault.Disks.Names.{is_reserved_target, caveat}
use omarchy_vault.Disks.Inventory.{Volume, mounted, Note, fs_caveat}
use omarchy_vault.Disks.Volumes.{
  raw_volume, classify_mounted, classify_supported, place, none_left, classify_volume,
  collect_volumes, collect_children, own_volume, is_nil,
}

-- What Vault promises of a volume that it offers: it is mounted, nowhere that Vault reserves, and
-- its filesystem is one that Vault supports.
pub record IsSafe (v : Volume) : Type 0 where
  pub status : v.status ≡ mounted
  pub somewhere : v.mountpoints ≢ []
  pub unreserved : All (λ m. is_reserved_target m ≡ false) v.mountpoints
  pub supported : caveat v.fstype ≢ none

-- offered only where `system` and `ro` are false, and then safe
abbrev pub OfferedIf : Bool → Bool → Volume → Type 0
OfferedIf is_system ro v = v.adoptable ≡ true → (is_system ≡ false) × (ro ≡ false) × IsSafe v

unreserved_of :
    (ms : List GoString)
    → find? is_reserved_target ms ≡ none
    → All (λ m. is_reserved_target m ≡ false) ms
unreserved_of [] h = tt
unreserved_of (m ∷ ms) h = elim (Bool-cases (is_reserved_target m)) [
  | inl bad ↦ absurd (ground arith)
  | inr good ↦ (good, unreserved_of ms (rw good at h))
]

place-OfferedIf :
    (v : Volume) (ns : List Note) (o : Option GoString)
    → find? is_reserved_target v.mountpoints ≡ o
    → v.adoptable ≡ false
    → v.mountpoints ≢ []
    → caveat v.fstype ≢ none
    → OfferedIf false false (place v ns o)
place-OfferedIf v ns (some m) e fresh held known h = cc
place-OfferedIf v ns none e fresh held known h = (
  refl,
  refl,
  record {
    status = refl;
    somewhere = held;
    unreserved = unreserved_of v.mountpoints e;
    supported = known;
  },
)

classify_supported-OfferedIf :
    (v : Volume) (o : Option Bool) (ro : Bool)
    → caveat v.fstype ≡ o
    → v.adoptable ≡ false
    → OfferedIf false ro (classify_supported v o ro)
unfolding classify_supported classify_mounted
classify_supported-OfferedIf v none ro e fresh h = cc
classify_supported-OfferedIf v (some limited) true e fresh h = absurd (ground arith)
classify_supported-OfferedIf v (some limited) false e fresh h =
    elim (Bool-cases (none_left v.mountpoints)) [
      | inl bare ↦ absurd (ground arith)
      | inr held ↦
          let ns : List Note = if limited then fs_caveat ∷ [] else [] in
          let here : v.mountpoints ≢ [] = λ m. cc (held, ap none_left m) in
          let known : caveat v.fstype ≢ none = λ m. cc (e, m) in
          rw held (place-OfferedIf v ns _ refl fresh here known (rw held at h))
    ]

classify-supported :
    (v : Volume) (has_children is_system ro : Bool)
    → v.adoptable ≡ false
    → (classify_volume v has_children is_system ro).adoptable ≡ true
    → (is_system ≡ false)
      × (classify_volume v has_children is_system ro ≡ classify_supported v (caveat v.fstype) ro)
unfolding classify_volume
classify-supported v has_children is_system ro fresh h = ground arith

classify-OfferedIf :
    (v : Volume) (has_children is_system ro : Bool)
    → v.adoptable ≡ false
    → OfferedIf is_system ro (classify_volume v has_children is_system ro)
classify-OfferedIf v has_children is_system ro fresh h =
    let (open', same) = classify-supported v has_children is_system ro fresh h in
    let (_, writable, safe) = classify_supported-OfferedIf v _ ro refl fresh (rw same at h) in
    (open', writable, rw same safe)

own-OfferedIf :
    (is_system : Bool) (table : MountMap) (ro : Bool) (d : Device) (has_children : Bool)
    → All (OfferedIf is_system ro) (own_volume is_system table ro d has_children)
unfolding raw_volume
own-OfferedIf is_system table ro d has_children =
    All-if _ _ (classify-OfferedIf (raw_volume table d) has_children is_system ro refl)
  where
    All-if :
        (b : Bool) (v : Volume)
        → OfferedIf is_system ro v
        → All (OfferedIf is_system ro) (if b then v ∷ [] else [])
    All-if true v h = (h, tt)
    All-if false v h = tt

-- a child is read-only where its parent is
looser :
    (is_system parent_ro ro : Bool) (vs : List Volume)
    → All (OfferedIf is_system (parent_ro || ro)) vs
    → All (OfferedIf is_system parent_ro) vs
looser is_system parent_ro ro [] h = tt
looser is_system parent_ro ro (v ∷ vs) (q, h) =
    (λ e. let (a, b, c) = q e in (a, ground arith, c), looser is_system parent_ro ro vs h)

mutual
  unfolding collect_volumes

  pub collect-OfferedIf :
      (is_system : Bool) (table : MountMap) (parent_ro : Bool) (n : Node)
      → All (OfferedIf is_system parent_ro) (collect_volumes is_system table parent_ro n)
  collect-OfferedIf is_system table parent_ro (node d ns) = looser is_system parent_ro d.ro _ (
      All-append (OfferedIf is_system (parent_ro || d.ro)) _ _
        (own-OfferedIf is_system table (parent_ro || d.ro) d (not (is_nil ns)))
        (children-OfferedIf is_system table (parent_ro || d.ro) ns))

  children-OfferedIf :
      (is_system : Bool) (table : MountMap) (ro : Bool) (ns : Nodes)
      → All (OfferedIf is_system ro) (collect_children is_system table ro ns)
  children-OfferedIf is_system table ro nil = tt
  children-OfferedIf is_system table ro (cons n ns) =
      All-append (OfferedIf is_system ro) _ _ (collect-OfferedIf is_system table ro n)
        (children-OfferedIf is_system table ro ns)

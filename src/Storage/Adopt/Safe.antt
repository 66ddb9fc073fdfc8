-- ===== src/Storage/Adopt/Safe.antt =====
-- internal/storage/adopt.go: `Adopt` uses only a drive that is offered, and no links on it.
use omarchy_vault.Prelude.{
  ◌≡◌, refl, sym, subst, inl, GoString, true, false, not, ◌||◌, Option, none, some, List, [], ◌∷◌,
  In, All, All-In, ok, arith,
}
use omarchy_vault.Config.Folders.{validate_folder}
use omarchy_vault.Disks.Inventory.{Volume, Disk, Inventory}
use omarchy_vault.Disks.Lsblk.{Nodes}
use omarchy_vault.Disks.Build.{Findmnt, build}
use omarchy_vault.Disks.Build.Offers.{build-OffersOnly}
use omarchy_vault.Disks.Volumes.Offered.{IsSafe}
use omarchy_vault.Storage.Paths.{MountTable, containing, is_mount_point}
use omarchy_vault.Storage.Inspect.{Source, data_dir}
use omarchy_vault.Storage.Adopt.{
  Root, AdoptRequest, AdoptAnswers, AdoptResult, AdoptCode, pick, is_system, is_ok, parts_of,
  new_result, adopt_at, adopt_volume, adopt,
}
use omarchy_vault.Storage.Adopt.Picked.{In-pick}
use omarchy_vault.Storage.Adopt.Folders.{IsFolder, paths, WasMade, Keeps-WasMade}
use omarchy_vault.Storage.Adopt.Kept.{Keeps-refl}
use omarchy_vault.Storage.Adopt.Fits.{
  Fits, Fits-err, refuse_if-Fits, prepare-Fits, Fits-source, Fits-kept,
}

module _ (R : Root) where
  -- A source on a volume of the inventory that is offered, on a drive that is neither the system's nor
  -- protected, which the kernel has mounted at the path; the Vault folder is on that mount.
  abbrev pub IsOffered : Inventory → MountTable → AdoptRequest → Source → Type 0
  IsOffered inv mounts q src =
      (d : Disk) × (v : Volume) × In d inv.disks
      × In v d.volumes
      × (v.name ≡ q.volume)
      × (v.uuid ≡ src.uuid)
      × (inv.system_disk_detected ≡ true)
      × (d.system ≡ false)
      × (d.is_protected ≡ false)
      × (v.adoptable ≡ true)
      × In src.path v.mountpoints
      × (is_mount_point mounts src.path ≡ true)
      × (src.folder ≡ q.folder)
      × (is_ok (validate_folder q.folder) ≡ true)
      × (containing mounts (data_dir src) ≡ src.path)

  -- The same, and the Vault folder and those on the way to it are folders.
  abbrev Prepares : Inventory → MountTable → AdoptRequest → R.Files → Source → Type 0
  Prepares inv mounts q t src =
      IsOffered inv mounts q src × All (IsFolder R t) (paths R [] (parts_of R q.folder))

  adopt_at-Fits :
      (inv : Inventory) (mounts : MountTable) (q : AdoptRequest) (uploads stamp : GoString)
      (a : AdoptAnswers) (d : Disk) (v : Volume) (points : List GoString) (s : R.Files)
      → v.mountpoints ≡ points
      → In d inv.disks
      → In v d.volumes
      → v.name ≡ q.volume
      → inv.system_disk_detected ≡ true
      → d.system ≡ false
      → d.is_protected ≡ false
      → is_ok (validate_folder q.folder) ≡ true
      → Fits R s (Prepares inv mounts q) (adopt_at R mounts q uploads stamp a d v points s)
  adopt_at-Fits inv mounts q uploads stamp a d v [] s points id iv name known off safe valid =
      Fits-err R s s (Prepares inv mounts q) AdoptCode.not_adoptable (Keeps-refl R s)
  adopt_at-Fits inv mounts q uploads stamp a d v (mount ∷ more) s points id iv name known off safe
        valid =
      refuse_if-Fits R (not v.adoptable) AdoptCode.not_adoptable s s (Prepares inv mounts q) _
        (Keeps-refl R s)
        (λ offered.
          refuse_if-Fits R (not (is_mount_point mounts mount)) AdoptCode.not_adoptable s s
            (Prepares inv mounts q) _ (Keeps-refl R s)
            (λ mounted.
              prepare-Fits R mounts q uploads a (new_result R q stamp d v mount) s
                (Prepares inv mounts q)
                (λ placed t made. (
                  (
                    d,
                    v,
                    id,
                    iv,
                    name,
                    refl,
                    known,
                    off,
                    safe,
                    ground arith,
                    subst (In mount) (sym points) (inl refl),
                    ground arith,
                    refl,
                    valid,
                    placed,
                  ),
                  made,
                ))))

  adopt_volume-Fits :
      (inv : Inventory) (mounts : MountTable) (q : AdoptRequest) (uploads stamp : GoString)
      (a : AdoptAnswers) (o : Option (Disk × Volume)) (s : R.Files)
      → pick q.volume inv.disks ≡ o
      → inv.system_disk_detected ≡ true
      → is_ok (validate_folder q.folder) ≡ true
      → Fits R s (Prepares inv mounts q) (adopt_volume R mounts q uploads stamp a o s)
  adopt_volume-Fits inv mounts q uploads stamp a none s e known valid =
      Fits-err R s s (Prepares inv mounts q) AdoptCode.not_found (Keeps-refl R s)
  adopt_volume-Fits inv mounts q uploads stamp a (some (d, v)) s e known valid =
      let (id, iv, name) = In-pick q.volume inv.disks (d, v) e in
      refuse_if-Fits R (d.system || (d.is_protected || is_system v.status)) AdoptCode.system_disk s
        s (Prepares inv mounts q) _ (Keeps-refl R s)
        (λ free.
          adopt_at-Fits inv mounts q uploads stamp a d v v.mountpoints s refl id iv name known
            (ground arith) (ground arith) valid)

  adopt-Fits :
      (inv : Inventory) (mounts : MountTable) (q : AdoptRequest) (uploads stamp : GoString)
      (a : AdoptAnswers) (s : R.Files)
      → Fits R s (Prepares inv mounts q) (adopt R (some inv) mounts q uploads stamp a s)
  unfolding adopt
  adopt-Fits inv mounts q uploads stamp a s =
      refuse_if-Fits R (not inv.system_disk_detected) AdoptCode.unknown_system_disk s s
        (Prepares inv mounts q) _ (Keeps-refl R s)
        (λ known.
          refuse_if-Fits R (not (is_ok (validate_folder q.folder))) AdoptCode.unsafe_path s s
            (Prepares inv mounts q) _ (Keeps-refl R s)
            (λ valid.
              adopt_volume-Fits inv mounts q uploads stamp a (pick q.volume inv.disks) s refl
                (ground arith) (ground arith)))

  -- Where `Adopt` succeeds, the Vault folder and each folder on the way to it from the mount is a plain
  -- folder, not a link, and was one before or was not there.
  pub lstat-adopt :
      (o : Option Inventory) (mounts : MountTable) (q : AdoptRequest) (uploads stamp : GoString)
      (a : AdoptAnswers) (s : R.Files) (r : AdoptResult)
      → (adopt R o mounts q uploads stamp a s).1 ≡ ok r
      → All
          (WasMade R s (adopt R o mounts q uploads stamp a s).0)
          (paths R [] (parts_of R q.folder))
  unfolding adopt
  lstat-adopt none mounts q uploads stamp a s r h = absurd (ground arith)
  lstat-adopt (some inv) mounts q uploads stamp a s r h =
      let reply = adopt R (some inv) mounts q uploads stamp a s in
      let fits = adopt-Fits inv mounts q uploads stamp a s in
      let (_, folders) = Fits-source R s (Prepares inv mounts q) reply r fits h in
      Keeps-WasMade R s reply.0 (paths R [] (parts_of R q.folder))
        (Fits-kept R s (Prepares inv mounts q) reply fits) folders

  -- A drive that `Adopt` takes from an inventory that `Build` made is offered there: the volume of the
  -- request is on a drive that does not hold the operating system, is not protected and not read-only;
  -- it is mounted at the path of the source, as the kernel says, nowhere reserved and with a supported
  -- filesystem; and the Vault folder, an allowed one, is on that mount.
  pub adopt-build :
      (nodes : Nodes) (findmnt : Findmnt) (inv : Inventory) (mounts : MountTable) (q : AdoptRequest)
      (uploads stamp : GoString) (a : AdoptAnswers) (s : R.Files) (r : AdoptResult)
      → build (some nodes) findmnt ≡ some inv
      → (adopt R (some inv) mounts q uploads stamp a s).1 ≡ ok r
      → IsOffered inv mounts q r.source
        × ((d : Disk) × (v : Volume) × In d inv.disks
            × In v d.volumes
            × (v.name ≡ q.volume)
            × In r.source.path v.mountpoints
            × (d.system ≡ false)
            × (d.read_only ≡ false)
            × IsSafe v)
  adopt-build nodes findmnt inv mounts q uploads stamp a s r built h =
      let (chosen, _) =
        Fits-source R s (Prepares inv mounts q) (adopt R (some inv) mounts q uploads stamp a s) r
          (adopt-Fits inv mounts q uploads stamp a s) h in
      let (d, v, id, iv, name, _, _, _, _, offered, at, _, _, _, _) = chosen in
      let (_, off, writable, safe) =
        All-In _ v d.volumes (build-OffersOnly nodes findmnt inv d built id) iv offered in
      (chosen, (d, v, id, iv, name, at, off, writable, safe))

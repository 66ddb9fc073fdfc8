-- ===== src/Users/Folders/Grants.antt =====
-- internal/users/users.go: what `ValidateFolders` accepts.
use omarchy_vault.Prelude.{
  ◌≡◌, refl, ◌↔◌, ◌⊎◌, GoString, codes, str_eq_iff, is_empty, has_prefix, contains, true, false,
  List, [], ◌∷◌, Result, ok, err, >>-ok_iff, All, All-pure, AreDistinct, arith, map,
}
use omarchy_vault.Config.Folders.{FolderError, slash, has_byte, validate_folder}
use omarchy_vault.Config.Folders.Components.{IsComponent, validate_folder-name_iff}
use omarchy_vault.Users.Folders.{
  Folder, read_write, read_only, check_access, check_known, check_grant, check_grants,
  validate_folders,
}

-- A grant of one folder directly below the Vault, not hidden, to read or to read and write.
abbrev pub IsGrant : Folder → Type 0
IsGrant f =
    IsComponent f.name
    × (has_byte slash f.name ≡ false)
    × (has_prefix f.name (codes ".") ≡ false)
    × ((f.access ≡ read_write) ⊎ (f.access ≡ read_only))

-- Every grant is for another folder than those before it.
unfoldable pub AllDistinct : List GoString → List Folder → Type 0
AllDistinct seen [] = Unit
AllDistinct seen (f ∷ fs) = (contains seen f.name ≡ false) × AllDistinct (f.name ∷ seen) fs

known_iff :
    (r : Result FolderError Unit) (f : Folder) (seen : List GoString)
    → (check_known r f seen ≡ ok tt) ↔ ((r ≡ ok tt) × (check_access f seen ≡ ok tt))
known_iff (ok tt) f seen = (λ h. (refl, h), λ (_, h). h)
known_iff (err e) f seen = ground arith

filled : (s : GoString) → is_empty s ≡ true → s ≡ []
filled [] h = refl
filled (c ∷ s) h = ground arith

IsGrant-iff :
    (f : Folder) (seen : List GoString)
    → (check_grant f seen ≡ ok tt) ↔ (IsGrant f × (contains seen f.name ≡ false))
unfolding check_grant
IsGrant-iff f seen = ground (
  arith,
  known_iff (validate_folder f.name) f seen,
  validate_folder-name_iff f.name,
  str_eq_iff f.access read_write,
  str_eq_iff f.access read_only,
  filled f.name,
)

grants_iff :
    (seen : List GoString) (fs : List Folder)
    → (check_grants seen fs ≡ ok tt) ↔ (All IsGrant fs × AllDistinct seen fs)
unfolding check_grants AllDistinct
grants_iff seen [] = ground arith
grants_iff seen (f ∷ fs) = ground (
  arith,
  >>-ok_iff (check_grant f seen) (check_grants (f.name ∷ seen) fs),
  IsGrant-iff f seen,
  grants_iff (f.name ∷ seen) fs,
)

seen_more :
    (x : GoString) (seen : List GoString) (fs : List Folder)
    → All (λ g. contains (x ∷ seen) g.name ≡ false) fs
      ↔ All (λ g. contains seen g.name ≡ false) fs × (contains (map (λ g. g.name) fs) x ≡ false)
unfolding contains
seen_more x seen [] = ground arith
seen_more x seen (g ∷ fs) =
    ground (arith, seen_more x seen fs, str_eq_iff x g.name, str_eq_iff g.name x)

distinct_iff :
    (seen : List GoString) (fs : List Folder)
    → AllDistinct seen fs
      ↔ AreDistinct (map (λ g. g.name) fs) × All (λ g. contains seen g.name ≡ false) fs
unfolding AllDistinct AreDistinct
distinct_iff seen [] = ground arith
distinct_iff seen (f ∷ fs) =
    ground (arith, distinct_iff (f.name ∷ seen) fs, seen_more f.name seen fs)

none_seen : (fs : List Folder) → All (λ g. contains [] g.name ≡ false) fs
unfolding contains
none_seen fs = All-pure _ (λ g. refl) fs

-- `ValidateFolders` accepts exactly the lists of grants that each name one folder directly below the
-- Vault, not hidden, with access to read or to read and write, and no folder twice.
pub validate_folders_iff :
    (fs : List Folder)
    → (validate_folders fs ≡ ok tt) ↔ (All IsGrant fs × AreDistinct (map (λ g. g.name) fs))
validate_folders_iff fs = ground (arith, grants_iff [] fs, distinct_iff [] fs, none_seen fs)

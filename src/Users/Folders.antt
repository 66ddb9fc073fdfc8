-- ===== src/Users/Folders.antt =====
-- internal/users/users.go: folder grants and their checks.
pub mod Grants
use omarchy_vault.Prelude.{
  GoString, codes, str_eq, is_empty, has_prefix, contains, Bool, ◌||◌, not, ◌&&◌, if◌then◌else◌,
  List, [], ◌∷◌, Result, ok, err, ◌>>◌,
}
use omarchy_vault.Config.Folders.{FolderError, slash, has_byte, validate_folder}

-- `Access` is a text in Go; these are its two values.
abbrev pub read_write : GoString
read_write = codes "rw"

abbrev pub read_only : GoString
read_only = codes "ro"

pub record Folder : Type 0 where
  pub name : GoString
  pub access : GoString

pub data GrantError : Type 0 where
  not_top_level bad_access listed_twice : GrantError
  bad_folder : FolderError → GrantError

abbrev pub is_top_level : GoString → Bool
is_top_level name = not (is_empty name || has_byte slash name || has_prefix name (codes "."))

-- the last two checks of a grant
abbrev pub check_access : Folder → List GoString → Result GrantError Unit
check_access f seen =
    if not (str_eq f.access read_write) && not (str_eq f.access read_only)
    then err bad_access
    else if contains seen f.name
    then err listed_twice
    else ok tt

abbrev pub check_known : Result FolderError Unit → Folder → List GoString → Result GrantError Unit
check_known (err e) f seen = err (bad_folder e)
check_known (ok _) f seen = check_access f seen

-- one round of the loop of `ValidateFolders`
unfoldable pub check_grant : Folder → List GoString → Result GrantError Unit
check_grant f seen =
    if is_top_level f.name then check_known (validate_folder f.name) f seen else err not_top_level

unfoldable pub check_grants : List GoString → List Folder → Result GrantError Unit
check_grants seen [] = ok tt
check_grants seen (f ∷ fs) = check_grant f seen >> check_grants (f.name ∷ seen) fs

-- `ValidateFolders`
abbrev pub validate_folders : List Folder → Result GrantError Unit
validate_folders = check_grants []

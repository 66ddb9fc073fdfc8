-- ===== src/Users/Accounts.antt =====
-- internal/users/users.go: accounts, their public shape and the grants suggested for new ones.
use omarchy_vault.Prelude.{
  ℕ, suc, GoString, codes, str_eq, Bool, not, ◌&&◌, if◌then◌else◌, List, [], ◌∷◌,
}
use omarchy_vault.Users.Folders.{Folder, read_write, read_only}
use omarchy_vault.Users.Names.{admin, family, guest}

-- `User`
pub record User : Type 0 where
  pub username : GoString
  pub role : GoString
  pub password_hash : GoString
  pub disabled : Bool
  pub folders : List Folder
  pub totp_secret : GoString
  pub totp_enabled : Bool
  pub totp_last : ℕ
  pub created_at : GoString
  pub updated_at : GoString

-- `View`: what others may see of an account.
pub record View : Type 0 where
  pub username : GoString
  pub role : GoString
  pub disabled : Bool
  pub folders : List Folder
  pub all_folders : Bool
  pub totp_enabled : Bool
  pub created_at : GoString

-- `User.View`
unfoldable pub view : User → View
view u = record {
  username = u.username;
  role = u.role;
  disabled = u.disabled;
  folders = u.folders;
  all_folders = str_eq u.role admin;
  totp_enabled = u.totp_enabled;
  created_at = u.created_at;
}

abbrev pub is_active_admin : User → Bool
is_active_admin u = str_eq u.role admin && not u.disabled

-- `activeAdmins`
unfoldable pub active_admins : List User → ℕ
active_admins [] = 0
active_admins (u ∷ us) = let rest = active_admins us in if is_active_admin u then suc rest else rest

-- `DefaultFolders`
unfoldable pub default_folders : GoString → List GoString → List Folder
default_folders role [] = []
default_folders role (name ∷ names) =
    let rest = default_folders role names in
    if str_eq role family
    then record { name = name; access = read_write } ∷ rest
    else if str_eq role guest && str_eq name (codes "Shared")
    then record { name = name; access = read_only } ∷ rest
    else rest

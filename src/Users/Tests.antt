-- ===== src/Users/Tests.antt =====
-- internal/users: two accounts, one of them an admin.
use omarchy_vault.Prelude.{
  ◌≤◌, ◌≡◌, refl, ◌⊎◌, ◌↔◌, codes, str_eq, contains, has_prefix, AreDistinct, true, false, some,
  List, [], ◌∷◌, map, any, Result, ok, err, arith, All, In, length,
}
use omarchy_vault.Config.Folders.{
  validate_folder, split, slash, ends_with, check_component, check_components,
}
use omarchy_vault.Config.Folders.Components.{IsComponent, validate_folder_iff}
use omarchy_vault.Users.Folders.{Folder, read_only, check_grants, check_grant, validate_folders}
use omarchy_vault.Users.Folders.Grants.{IsGrant, validate_folders_iff}
use omarchy_vault.Users.Names.{admin, guest, matches_name, validate_username}
use omarchy_vault.Users.Accounts.{User, active_admins, is_active_admin}
use omarchy_vault.Users.Store
use omarchy_vault.Users.Store.{
  Store, UserError, has_name, stamp, get, open_store, list, count, last_admin,
}
use omarchy_vault.Users.Store.Calls.{Op, create, update, delete, step, run, fails}
use omarchy_vault.Users.Store.Admins.{HasAdmin, run-HasAdmin, delete_refused_iff}
use omarchy_vault.Users.Store.Valid.{AreAccounts, run-AreAccounts}
use omarchy_vault.Users.Store.Lookups.{IsSaved}

abbrev shared : Folder
shared = record { name = codes "Shared"; access = read_only }

abbrev ann : User
ann = record {
  username = codes "ann";
  role = admin;
  password_hash = codes "h1";
  disabled = false;
  folders = [];
  totp_secret = [];
  totp_enabled = false;
  totp_last = 0;
  created_at = codes "t0";
  updated_at = codes "t0";
}

abbrev bob : User
bob = record {
  username = codes "bob";
  role = guest;
  password_hash = codes "h2";
  disabled = false;
  folders = shared ∷ [];
  totp_secret = [];
  totp_enabled = false;
  totp_last = 0;
  created_at = codes "t1";
  updated_at = codes "t1";
}

-- Ann alone, saved.
abbrev alone : Store
alone = record { users = ann ∷ []; file = some (record { version = 1; users = ann ∷ [] }) }

abbrev both : Store
both = record {
  users = ann ∷ bob ∷ [];
  file = some (record { version = 1; users = ann ∷ bob ∷ [] });
}

abbrev disable : User → Result UserError User
disable u = ok (record u { disabled = true })

-- Bob comes; Ann is neither disabled nor deleted; Bob goes.
abbrev calls : List Op
calls =
    create bob (codes "t1") true
    ∷ update (codes "ann") disable (codes "t2") true
    ∷ delete (codes "ann") true
    ∷ delete (codes "bob") false
    ∷ []

bob_stays : (run calls alone).users ≡ ann ∷ bob ∷ []
unfolding run step Store.create Store.update Store.delete Store.check_new Store.check_changed
    Store.find_last Store.set_last Store.without active_admins validate_username matches_name
    contains str_eq check_grants check_grant has_prefix validate_folder ends_with split
    check_components check_component
bob_stays = refl

one_admin : HasAdmin alone
unfolding active_admins str_eq
one_admin = omega arith

run-HasAdmin_example : HasAdmin (run calls alone)
run-HasAdmin_example = run-HasAdmin calls alone one_admin

known : any (has_name (codes "ann")) both.users ≡ true
unfolding str_eq
known = refl

delete_refused_iff_example : ((Store.delete (codes "ann") true both).1 ≡ err last_admin) ↔ (
    ((u : User) × In u both.users × (is_active_admin u ≡ true))
    × All (λ u. is_active_admin u ≡ true → has_name (codes "ann") u ≡ true) both.users)
delete_refused_iff_example = delete_refused_iff (codes "ann") true both known

ann_valid : AreAccounts alone.users
unfolding AreDistinct contains str_eq
ann_valid = ground arith

run-AreAccounts_example : AreAccounts (run calls alone).users
run-AreAccounts_example = run-AreAccounts calls alone ann_valid

-- Without a password the call is refused.
nameless : fails (create (record bob { password_hash = [] }) (codes "t1") true) alone ≡ true
unfolding fails Store.create Store.update Store.delete Store.check_new Store.check_changed
    Store.find_last Store.set_last Store.without active_admins validate_username matches_name
    contains str_eq check_grants check_grant has_prefix validate_folder ends_with split
    check_components check_component
nameless = refl

opened : IsSaved alone
unfolding open_store
opened = refl

created : (Store.create bob (codes "t1") true alone).1 ≡ ok tt
unfolding Store.create Store.update Store.delete Store.check_new Store.check_changed Store.find_last
    Store.set_last Store.without active_admins validate_username matches_name contains str_eq
    check_grants check_grant has_prefix validate_folder ends_with split check_components
    check_component
created = refl

deleted : (Store.delete (codes "bob") true both).1 ≡ ok tt
unfolding Store.create Store.update Store.delete Store.check_new Store.check_changed Store.find_last
    Store.set_last Store.without active_admins validate_username matches_name contains str_eq
    check_grants check_grant has_prefix validate_folder ends_with split check_components
    check_component
deleted = refl

abbrev bob_disabled : User
bob_disabled = record bob { disabled = true; updated_at = codes "t2" }

updated : (Store.update (codes "bob") disable (codes "t2") true both).1 ≡ ok bob_disabled
unfolding Store.create Store.update Store.delete Store.check_new Store.check_changed Store.find_last
    Store.set_last Store.without active_admins validate_username matches_name contains str_eq
    check_grants check_grant has_prefix validate_folder ends_with split check_components
    check_component
updated = refl

apart : AreDistinct (map (λ u. u.username) both.users)
unfolding AreDistinct contains str_eq
apart = (refl, (refl, tt))

validate_folders_iff_example :
    (validate_folders (shared ∷ []) ≡ ok tt)
    ↔ (All IsGrant (shared ∷ []) × AreDistinct (map (λ f. f.name) (shared ∷ [])))
validate_folders_iff_example = validate_folders_iff (shared ∷ [])

validate_folder_iff_example : (validate_folder (codes "a/b") ≡ ok tt) ↔ (
    (codes "a/b" ≡ [])
    ⊎ ((length (split slash (codes "a/b")) ≤ 4) × All IsComponent (split slash (codes "a/b"))))
validate_folder_iff_example = validate_folder_iff (codes "a/b")

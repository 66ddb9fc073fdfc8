-- ===== src/Users/Store.antt =====
-- internal/users/users.go: the operations of `Store`. A call holds the lock throughout, so calls are
-- steps. `saved` says whether `save` succeeds; the file is replaced by a rename or not at all.
pub mod Calls
pub mod Lookups
pub mod Valid
pub mod Admins
use omarchy_vault.Prelude.{
  ℕ, zero, suc, GoString, codes, str_eq, is_empty, str_lt, Bool, true, false, not, ◌&&◌, ltb, ◌==◌,
  if◌then◌else◌, Option, none, some, List, [], ◌∷◌, ◌++◌, length, any, find?, Result, ok, err, ◌>>◌,
}
use omarchy_vault.Users.Folders.{Folder, GrantError, validate_folders}
use omarchy_vault.Users.Names.{NameError, admin, is_role, validate_username}
use omarchy_vault.Users.Accounts.{User, active_admins}

pub data UserError : Type 0 where
  bad_username : NameError → UserError
  bad_role no_password exists not_found last_admin renamed save_failed : UserError
  bad_grants : GrantError → UserError
  refused : UserError

-- what `users.json` holds when it is readable: `fileFormat`
pub record UsersFile : Type 0 where
  pub version : ℕ
  pub users : List User

-- `Store`: the list in memory, and the file, if there is one
pub record Store : Type 0 where
  pub users : List User
  pub file : Option UsersFile

-- `Open`, for a file that can be read and decoded
unfoldable pub open_store : Option UsersFile → Option Store
open_store none = some (record { users = []; file = none })
open_store (some f) =
    if not (f.version == 1) then none else some (record { users = f.users; file = some f })

abbrev pub has_name : GoString → User → Bool
has_name name u = str_eq u.username name

abbrev pub name_error : Result NameError Unit → Result UserError Unit
name_error (ok _) = ok tt
name_error (err e) = err (bad_username e)

abbrev pub grant_error : Result GrantError Unit → Result UserError Unit
grant_error (ok _) = ok tt
grant_error (err e) = err (bad_grants e)

-- the end of every call that writes: `save`, then the new list in memory
abbrev pub commit : {A : Type 0} → Bool → List User → A → Store → Store × Result UserError A
commit false next a s = (s, err save_failed)
commit true next a s =
    (record { users = next; file = some (record { version = 1; users = next }) }, ok a)

-- `if u.Role == Admin { u.Folders = nil }`
abbrev pub clear_folders : User → User
clear_folders u = if str_eq u.role admin then record u { folders = [] } else u

-- the checks of `Create` before the lock
unfoldable pub check_new : User → Result UserError Unit
check_new u =
    name_error (validate_username u.username)
    >> (if not (is_role u.role) then err bad_role else ok tt)
    >> grant_error (validate_folders u.folders)
    >> (if is_empty u.password_hash then err no_password else ok tt)

abbrev pub stamp : GoString → User → User
stamp ts u = clear_folders (record u { created_at = ts; updated_at = ts })

abbrev pub create_checked :
    Result UserError Unit → User → GoString → Bool → Store → Store × Result UserError Unit
create_checked (err e) u ts saved s = (s, err e)
create_checked (ok _) u ts saved s =
    if any (has_name u.username) s.users
    then (s, err exists)
    else commit saved (s.users ++ stamp ts u ∷ []) tt s

-- `Create`; `ts` is the time of the call
unfoldable pub create : User → GoString → Bool → Store → Store × Result UserError Unit
create u ts saved s = create_checked (check_new u) u ts saved s

-- the last user of the name, as the loop of `Update` leaves its index
unfoldable pub find_last : GoString → List User → Option User
find_last name [] = none
find_last name (u ∷ us) = elim (find_last name us) [
  | some v ↦ some v
  | none ↦ if has_name name u then some u else none
]

-- `next[idx] = v` for that index
unfoldable pub set_last : GoString → User → List User → List User
set_last name v [] = []
set_last name v (u ∷ us) =
    let rest = set_last name v us in
    if any (has_name name) us then u ∷ rest else if has_name name u then v ∷ us else u ∷ rest

-- the checks of `Update` on the changed user
unfoldable pub check_changed : GoString → User → Result UserError Unit
check_changed name u =
    (if not (str_eq u.username name) then err renamed else ok tt)
    >> (if not (is_role u.role) then err bad_role else ok tt)
    >> grant_error (validate_folders u.folders)

-- whether the list would lose its last active admin
abbrev pub loses_admin : List User → List User → Bool
loses_admin before after = ltb 0 (active_admins before) && active_admins after == 0

abbrev pub write_changed :
    Result UserError Unit → GoString → User → Bool → Store → Store × Result UserError User
write_changed (err e) name u saved s = (s, err e)
write_changed (ok _) name u saved s =
    if loses_admin s.users (set_last name u s.users)
    then (s, err last_admin)
    else commit saved (set_last name u s.users) u s

abbrev pub touch : GoString → User → User
touch ts u = record (clear_folders u) { updated_at = ts }

abbrev pub change :
    Result UserError User → GoString → GoString → Bool → Store → Store × Result UserError User
change (err e) name ts saved s = (s, err e)
change (ok u) name ts saved s = write_changed (check_changed name u) name (touch ts u) saved s

abbrev pub update_found :
    Option User
    → GoString
    → (User → Result UserError User)
    → GoString
    → Bool
    → Store
    → Store × Result UserError User
update_found none name fn ts saved s = (s, err not_found)
update_found (some u) name fn ts saved s = change (fn u) name ts saved s

-- `Update`; `fn` is the caller's function on the copy, `refused` its error
unfoldable pub update :
    GoString
    → (User → Result UserError User)
    → GoString
    → Bool
    → Store
    → Store × Result UserError User
update name fn ts saved s = update_found (find_last name s.users) name fn ts saved s

-- the loop of `Delete`: the users of other names
unfoldable pub without : GoString → List User → List User
without name [] = []
without name (u ∷ us) = let rest = without name us in if has_name name u then rest else u ∷ rest

-- `Delete`
unfoldable pub delete : GoString → Bool → Store → Store × Result UserError Unit
delete name saved s =
    if not (any (has_name name) s.users)
    then (s, err not_found)
    else if loses_admin s.users (without name s.users)
    then (s, err last_admin)
    else commit saved (without name s.users) tt s

-- `Get`
abbrev pub get : GoString → Store → Option User
get name s = find? (has_name name) s.users

-- `Count`
abbrev pub count : Store → ℕ
count s = length s.users

-- `sort.Slice` by name
unfoldable pub insert_user : User → List User → List User
insert_user u [] = u ∷ []
insert_user u (v ∷ vs) =
    let rest = insert_user u vs in if str_lt v.username u.username then v ∷ rest else u ∷ (v ∷ vs)

unfoldable pub sort_users : List User → List User
sort_users [] = []
sort_users (u ∷ us) = insert_user u (sort_users us)

-- `List`
abbrev pub list : Store → List User
list s = sort_users s.users

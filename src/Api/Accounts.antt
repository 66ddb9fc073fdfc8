-- ===== src/Api/Accounts.antt =====
-- internal/api/users_handlers.go: the requests that change accounts, after their bodies are decoded.
-- `check` is `ValidatePassword`, `stretch` is `HashPassword`, `none` where no salt could be drawn.
-- Mirroring the accounts to Files, whose errors are only logged, is left out. The reply to a creation
-- holds the new account, which `Get` finds.
pub mod Managed
pub mod Requests
pub mod Access
use omarchy_vault.Prelude.{
  ℕ, ◌/◌, ◌++◌, GoString, codes, str_eq, is_empty, Bool, true, false, not, ◌&&◌, ◌||◌, ltb,
  if◌then◌else◌, Option, none, some, List, [], ◌∷◌, length, Result, ok, err,
}
use omarchy_vault.Disks.Display.{trim_space}
use omarchy_vault.Users.Folders.{Folder}
use omarchy_vault.Users.Names.{NameError, admin, validate_username}
use omarchy_vault.Users.Accounts.{User, View, view, default_folders}
use omarchy_vault.Users.Store
use omarchy_vault.Users.Store.{UserError}
use omarchy_vault.Auth.Limiter.{blocked, fail}
use omarchy_vault.Auth.Local
use omarchy_vault.Auth.Local.{Identity}
use omarchy_vault.Auth.Totp.{verify_totp}
use omarchy_vault.Api.Server.{
  Server, Request, Refusal, Reply, locked, bad_credentials, bad_totp, bad_request, not_found,
  last_admin, invalid, conflict, bad_username, weak_password, internal, local_session,
  login_required, totp_enabled,
}
use omarchy_vault.Api.Gate.{accounts_exist}
use omarchy_vault.Api.SignIn.{World, reply_after, sign_in}

-- `CreateUserRequest`
pub record NewUser : Type 0 where
  pub username : GoString
  pub password : GoString
  pub role : GoString
  pub folders : Option (List Folder)

-- `UpdateUserRequest`
pub record Changes : Type 0 where
  pub role : Option GoString
  pub disabled : Option Bool
  pub folders : Option (List Folder)

abbrev pub or_default {ℓ} : {A : Type ℓ} → Option A → A → A
or_default none d = d
or_default (some a) d = a

-- `userError`
abbrev pub user_error : UserError → Refusal
user_error Store.not_found = not_found
user_error Store.last_admin = last_admin
user_error _ = invalid

-- the answer to an error of `Create`
abbrev pub create_error : UserError → Refusal
create_error Store.exists = conflict
create_error _ = invalid

abbrev pub with_users : Store.Store → Server → Server
with_users us s = record s { users = us }

abbrev pub end_all : GoString → Server → Server
end_all name s = record s { local = Local.end_sessions_for name s.local }

-- the fields that an `UpdateUserRequest` sets
abbrev pub apply_changes : Changes → User → Result UserError User
apply_changes c u = ok (record u {
  role = or_default c.role u.role;
  disabled = or_default c.disabled u.disabled;
  folders = or_default c.folders u.folders;
})

abbrev pub is_given {ℓ} : {A : Type ℓ} → Option A → Bool
is_given none = false
is_given (some _) = true

-- whether the sessions of the user end
abbrev pub ends_sessions : Changes → Bool
ends_sessions c = is_given c.role || or_default c.disabled false

abbrev pub after_update :
    Changes → GoString → Store.Store × Result UserError User → Server → Reply View
after_update c name (us, err e) s = (with_users us s, err (user_error e))
after_update c name (us, ok u) s =
    (if ends_sessions c then end_all name (with_users us s) else with_users us s, ok (view u))

-- `handleUpdateUser`
unfoldable pub handle_update_user : GoString → Changes → World → Server → Reply View
handle_update_user name c w s =
    after_update c name (Store.update name (apply_changes c) w.stamp w.saved s.users) s

abbrev pub after_delete :
    GoString → Store.Store × Result UserError (Unit {0}) → Server → Reply (Unit {0})
after_delete name (us, err e) s = (with_users us s, err (user_error e))
after_delete name (us, ok _) s = (end_all name (with_users us s), ok tt)

-- `handleDeleteUser`
unfoldable pub handle_delete_user : GoString → World → Server → Reply (Unit {0})
handle_delete_user name w s = after_delete name (Store.delete name w.saved s.users) s

abbrev pub set_hash : GoString → User → Result UserError User
set_hash h u = ok (record u { password_hash = h })

abbrev pub after_reset : GoString → Store.Store × Result UserError User → Server → Reply User
after_reset name (us, err e) s = (with_users us s, err (user_error e))
after_reset name (us, ok u) s = (end_all name (with_users us s), ok u)

abbrev pub store_hash : GoString → Option GoString → World → Server → Reply User
store_hash name none w s = (s, err internal)
store_hash name (some h) w s =
    after_reset name (Store.update name (set_hash h) w.stamp w.saved s.users) s

-- the account that `Create` gets; an unset field is zero
abbrev pub new_account : GoString → GoString → GoString → List Folder → User
new_account name role h folders = record {
  username = name;
  role = role;
  password_hash = h;
  disabled = false;
  folders = folders;
  totp_secret = [];
  totp_enabled = false;
  totp_last = 0;
  created_at = [];
  updated_at = [];
}

-- `accountUser`: the account of the identity
abbrev pub account_user : Identity → Server → Result Refusal User
account_user id s =
    if id.is_local
    then err local_session
    else elim (Store.get id.username s.users) [ none ↦ err login_required | some u ↦ ok u ]

-- a handler for the account of the identity
abbrev pub with_account :
    {A : Type 0} → Result Refusal User → (User → Server → Reply A) → Server → Reply A
with_account (err e) next s = (s, err e)
with_account (ok u) next s = next u s

abbrev pub set_secret : GoString → User → Result UserError User
set_secret secret u = ok (record u { totp_secret = secret; totp_last = 0 })

abbrev pub enable_totp : ℕ → User → Result UserError User
enable_totp counter u = ok (record u { totp_enabled = true; totp_last = counter })

abbrev pub disable_totp : User → Result UserError User
disable_totp u = ok (record u { totp_enabled = false; totp_secret = []; totp_last = 0 })

abbrev pub after_totp_change : Store.Store × Result UserError User → Server → Reply View
after_totp_change (us, err e) s = (with_users us s, err (user_error e))
after_totp_change (us, ok u) s = (with_users us s, ok (view u))

-- `handleTOTPSetup` for the account, with the secret that was drawn
unfoldable pub setup_totp : User → Option GoString → World → Server → Reply View
setup_totp u secret w s = if u.totp_enabled then (s, err totp_enabled) else elim secret [
  | none ↦ (s, err internal)
  | some k ↦ after_totp_change (Store.update u.username (set_secret k) w.stamp w.saved s.users) s
]

-- the end of `handleTOTPEnable`
abbrev pub confirmed : User → World → Server → Option ℕ → Reply View
confirmed u w s none = (s, err bad_totp)
confirmed u w s (some counter) =
    after_totp_change (Store.update u.username (enable_totp counter) w.stamp w.saved s.users) s

module _ (hmac_sha1 : GoString → List ℕ → List ℕ) (decode : GoString → Option GoString) where
  -- `handleTOTPEnable` for the account
  unfoldable pub confirm_totp : User → GoString → World → Server → Reply View
  confirm_totp u code w s =
      if is_empty u.totp_secret
      then (s, err bad_request)
      else confirmed u w s
          (verify_totp hmac_sha1 decode u.totp_secret code (w.totp_at / Local.second) 0)

module _ (verify : GoString → GoString → Bool) where
  -- `handleTOTPDisable` for the account
  unfoldable pub remove_totp : User → GoString → World → Server → Reply View
  remove_totp u password w s =
      if not (verify password u.password_hash)
      then (
        record s { limiter = fail w.failed_at ((codes "user:" ++ u.username) ∷ []) s.limiter },
        err bad_credentials,
      )
      else after_totp_change (Store.update u.username disable_totp w.stamp w.saved s.users) s

module _ (check : GoString → Bool) (stretch : GoString → Option GoString) where
  -- `handleResetPassword`
  unfoldable pub handle_reset_password : GoString → GoString → World → Server → Reply User
  handle_reset_password name password w s =
      if check password then store_hash name (stretch password) w s else (s, err weak_password)

  abbrev pub after_change : (GoString → GoString) → World → Request → Reply User → Reply (Unit {0})
  after_change hash w r (s, err e) = (s, err e)
  after_change hash w r (s, ok u) = reply_after tt (sign_in hash u w r s)

  -- `handleChangePassword` for the account
  unfoldable pub change_password :
      (GoString → GoString)
      → (GoString → GoString → Bool)
      → User
      → GoString
      → GoString
      → World
      → Request
      → Server
      → Reply (Unit {0})
  unfolding handle_reset_password
  change_password hash verify u current next w r s =
      let keys = (codes "user:" ++ u.username) ∷ [] in
      if (blocked w.blocked_at s.limiter keys).1
      then (s, err locked)
      else if not (verify current u.password_hash)
      then (record s { limiter = fail w.failed_at keys s.limiter }, err bad_credentials)
      else after_change hash w r (handle_reset_password u.username next w s)

  abbrev pub greet :
      (GoString → GoString) → Bool → World → Request → Option User → Server → Reply (Option View)
  greet hash first w r none s = (s, ok none)
  greet hash true w r (some u) s = reply_after (some (view u)) (sign_in hash u w r s)
  greet hash false w r (some u) s = (s, ok (some (view u)))

  abbrev pub after_create :
      (GoString → GoString)
      → Bool
      → World
      → Request
      → GoString
      → Store.Store × Result UserError (Unit {0})
      → Server
      → Reply (Option View)
  after_create hash first w r name (us, err e) s = (with_users us s, err (create_error e))
  after_create hash first w r name (us, ok _) s =
      greet hash first w r (Store.get name us) (with_users us s)

  abbrev pub create_hashed :
      (GoString → GoString)
      → NewUser
      → GoString
      → GoString
      → List GoString
      → Option GoString
      → World
      → Request
      → Server
      → Reply (Option View)
  create_hashed hash q name role available none w r s = (s, err internal)
  create_hashed hash q name role available (some h) w r s =
      let folders = or_default q.folders (default_folders role available) in
      after_create hash (not (accounts_exist s)) w r name
        (Store.create (new_account name role h folders) w.stamp w.saved s.users) s

  -- the first account is an admin's
  abbrev pub role_of : NewUser → Server → GoString
  role_of q s = if accounts_exist s then q.role else admin

  abbrev pub create_named :
      Result NameError (Unit {0})
      → (GoString → GoString)
      → NewUser
      → GoString
      → List GoString
      → World
      → Request
      → Server
      → Reply (Option View)
  create_named (err _) hash q name available w r s = (s, err bad_username)
  create_named (ok _) hash q name available w r s =
      if check q.password
      then create_hashed hash q name (role_of q s) available (stretch q.password) w r s
      else (s, err weak_password)

  -- `handleCreateUser` for a name in its normal form
  unfoldable pub create_user :
      (GoString → GoString)
      → NewUser
      → GoString
      → List GoString
      → World
      → Request
      → Server
      → Reply (Option View)
  create_user hash q name available w r s =
      create_named (validate_username name) hash q name available w r s

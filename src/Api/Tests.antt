-- ===== src/Api/Tests.antt =====
-- internal/api: a Vault with an admin and a guest, and stand-ins for the libraries.
use omarchy_vault.Prelude.{
  ℕ, ◌+◌, ◌*◌, ◌<◌, ◌≡◌, ◌≢◌, refl, ◌⊎◌, inl, GoString, codes, str_eq, contains, has_prefix,
  AreDistinct, Bool, true, false, Option, none, some, List, [], ◌∷◌, ok, err, arith,
}
use omarchy_vault.Prelude.Dict
use omarchy_vault.Disks.Display.{trim_space}
use omarchy_vault.Config.Folders.{
  validate_folder, split, ends_with, check_component, check_components,
}
use omarchy_vault.Users.Folders.{check_grants, check_grant, Folder, read_only}
use omarchy_vault.Users.Names.{admin, family, guest}
use omarchy_vault.Users.Accounts.{User, View, view, active_admins}
use omarchy_vault.Users.Store
use omarchy_vault.Users.Store.{Store, open_store}
use omarchy_vault.Users.Store.Valid.{AreAccounts}
use omarchy_vault.Auth.Limiter.{LimitState, lockout, shifted, blocked, fail, wait_for, longest_wait}
use omarchy_vault.Auth.Local.{second, new_session, session, end_sessions_for}
use omarchy_vault.Auth.Totp.{
  put_uint64, six_digits, truncate, clean_code, steps_near, totp_at, first_match, match_with,
  verify_totp,
}
use omarchy_vault.Api.Server.{Server, Request, Refusal, internal, locked}
use omarchy_vault.Api.Gate.{Shown, identity, decide}
use omarchy_vault.Api.Gate.Sound.{MayPass, decide_sound}
use omarchy_vault.Api.SignIn.{LoginRequest, World, keys_of, account_of, sign_in, step_of, login_as}
use omarchy_vault.Api.SignIn.Sound.{Admits, FailsLate, login_as_sound, login_as_refused}
use omarchy_vault.Api.SignIn.Guesses.{login_as-login_as}
use omarchy_vault.Api.SignIn.Replay.{IsSpent, login_as-IsSpent}
use omarchy_vault.Api.Accounts.{
  Changes, handle_reset_password, handle_update_user, handle_delete_user,
}
use omarchy_vault.Api.Accounts.Access.{identity-handle_update_user, identity-handle_delete_user}
use omarchy_vault.Api.Accounts.Requests
use omarchy_vault.Api.Accounts.Requests.{
  Call, IsAdministered, IsManaged, serve_all, serve_all-IsManaged,
}

abbrev digest : GoString → GoString
digest s = s

abbrev fits : GoString → GoString → Bool
fits password h = str_eq password h

abbrev strong : GoString → Bool
strong p = true

abbrev stretch : GoString → Option GoString
stretch p = some p

-- twenty bytes, the fourth of which tells the step
abbrev mac : GoString → List ℕ → List ℕ
mac key (a ∷ b ∷ c ∷ d ∷ e ∷ f ∷ g ∷ h ∷ []) =
    0 ∷ 0 ∷ 0 ∷ h ∷ 0 ∷ 0 ∷ 0 ∷ 0 ∷ 0 ∷ 0 ∷ 0 ∷ 0 ∷ 0 ∷ 0 ∷ 0 ∷ 0 ∷ 0 ∷ 0 ∷ 0 ∷ 0 ∷ []
mac key _ = []

abbrev decode : GoString → Option GoString
decode s = some s

-- Ann has a second factor.
abbrev ann : User
ann = record {
  username = codes "ann";
  role = admin;
  password_hash = codes "pw";
  disabled = false;
  folders = [];
  totp_secret = codes "ABC";
  totp_enabled = true;
  totp_last = 1;
  created_at = codes "t0";
  updated_at = codes "t0";
}

abbrev shared : Folder
shared = record { name = codes "Shared"; access = read_only }

abbrev bob : User
bob = record {
  username = codes "bob";
  role = guest;
  password_hash = codes "pw2";
  disabled = false;
  folders = shared ∷ [];
  totp_secret = [];
  totp_enabled = false;
  totp_last = 0;
  created_at = codes "t1";
  updated_at = codes "t1";
}

abbrev both : Store
both = record {
  users = ann ∷ bob ∷ [];
  file = some (record { version = 1; users = ann ∷ bob ∷ [] });
}

-- Both have a session.
abbrev vault : Server
vault = record {
  users = both;
  local = record {
    codes = [];
    sessions =
        (codes "sa", record { exp = 100 * second; id = account_of ann })
        ∷ (codes "sb", record { exp = 100 * second; id = account_of bob })
        ∷ [];
  };
  limiter = [];
  is_demo = false;
}

abbrev request : Request
request = record {
  method = codes "GET";
  token = [];
  from_socket = false;
  cookie = some (codes "sa");
  intent = [];
  client_ip = codes "10.0.0.2";
}

abbrev world : World
world = record {
  blocked_at = 60 * second;
  failed_at = 60 * second;
  totp_at = 60 * second;
  session_at = 60 * second;
  stamp = codes "t2";
  saved = true;
  draw = some (codes "s1");
}

passes : (decide (codes "tok") digest true (60 * second) request vault).1 ≡ ok (account_of ann)
unfolding decide identity session Dict.lookup str_eq
passes = refl

decide_sound_example :
    MayPass (codes "tok") digest true (60 * second) request vault (account_of ann)
decide_sound_example =
    decide_sound (codes "tok") digest true (60 * second) request vault (account_of ann) passes

abbrev right : LoginRequest
right = record { username = codes "ann"; password = codes "pw"; totp = codes " 000 002" }

abbrev wrong : LoginRequest
wrong = record { username = codes "ann"; password = codes "guess"; totp = codes "000 002" }

signed_in :
    (login_as digest fits mac decode (codes "ann") right world request vault).1 ≡ ok (view ann)
unfolding login_as sign_in verify_totp match_with first_match totp_at six_digits truncate clean_code
    steps_near put_uint64 trim_space fail str_eq blocked longest_wait wait_for Dict.lookup view
    new_session
signed_in = refl

login_as_sound_example :
    ((blocked world.blocked_at vault.limiter (keys_of (codes "ann") request)).1 ≡ false)
    × ((u : User) × Admits digest fits mac decode (codes "ann") right vault u
        × (view ann ≡ view u)
        × ((u.totp_enabled ≡ false)
            ⊎ ((counter : ℕ) × (step_of digest fits mac decode right u world ≡ some counter))))
login_as_sound_example =
    login_as_sound digest fits mac decode (codes "ann") right world request vault (view ann)
      signed_in

-- No session can be drawn.
abbrev undrawn : World
undrawn = record world { draw = none }

refused :
    (login_as digest fits mac decode (codes "ann") right undrawn request vault).1 ≡ err internal
unfolding login_as sign_in verify_totp match_with first_match totp_at six_digits truncate clean_code
    steps_near put_uint64 trim_space fail str_eq blocked longest_wait wait_for Dict.lookup view
    new_session
refused = refl

login_as_refused_example :
    ((login_as digest fits mac decode (codes "ann") right undrawn request vault).0 ≡ vault)
    ⊎ ((login_as digest fits mac decode (codes "ann") right undrawn request vault).0
        ≡ record vault {
          limiter = fail undrawn.failed_at (keys_of (codes "ann") request) vault.limiter;
        })
    ⊎ ((◌≡◌ {A = Refusal} internal internal)
        × FailsLate digest fits mac decode
            (codes "ann")
            right
            undrawn
            request
            vault
            (login_as digest fits mac decode (codes "ann") right undrawn request vault).0)
login_as_refused_example =
    login_as_refused digest fits mac decode (codes "ann") right undrawn request vault internal
      refused

-- four failures of Ann's name
abbrev failures : LimitState
failures = record { failures = 4; until = 0; last = 50 * second }

abbrev attacked : Server
attacked = record vault { limiter = (codes "user:ann", failures) ∷ [] }

counted :
    (login_as digest fits mac decode (codes "ann") wrong world request attacked).0
    ≡ record attacked {
      limiter = fail world.failed_at (keys_of (codes "ann") request) attacked.limiter;
    }
unfolding login_as str_eq blocked longest_wait wait_for Dict.lookup view
counted = refl

four : Dict.lookup (codes "user:ann") attacked.limiter ≡ some failures
unfolding Dict.lookup str_eq
four = refl

abbrev later : World
later = record world { blocked_at = 70 * second }

soon : 70 * second < 60 * second + lockout 5
unfolding lockout shifted
soon = omega arith

login_as-login_as_example :
    (login_as digest fits mac decode
      (codes "ann")
      right
      later
      request
      (login_as digest fits mac decode (codes "ann") wrong world request attacked).0).1
    ≡ err locked
login_as-login_as_example =
    login_as-login_as digest fits mac decode (codes "ann") wrong right world later request request
      attacked failures counted four (omega arith) (omega arith) soon

valid : AreAccounts both.users
unfolding AreDistinct contains str_eq validate_folder has_prefix
valid = ground arith

login_as-IsSpent_example :
    (u : User) × (Store.get (codes "ann") vault.users ≡ some u)
    × ((u.totp_enabled ≡ false)
        ⊎ ((counter : ℕ) × (step_of digest fits mac decode right u world ≡ some counter)
            × IsSpent digest fits mac decode
                (codes "ann")
                counter
                (login_as digest fits mac decode (codes "ann") right world request vault).0))
login_as-IsSpent_example =
    login_as-IsSpent digest fits mac decode (codes "ann") right world request vault (view ann) valid
      refl signed_in

abbrev gone : Server
gone = (handle_delete_user (codes "bob") world vault).0

deleted : (handle_delete_user (codes "bob") world vault).1 ≡ ok tt
unfolding handle_delete_user Store.delete Store.without active_admins str_eq
deleted = refl

-- Ann is still signed in.
abbrev ann_shown : Shown
ann_shown = (account_of ann, true)

ann_stays : (identity (codes "tok") digest (60 * second) request gone).1 ≡ some ann_shown
unfolding handle_delete_user Store.delete Store.without active_admins str_eq identity session
    Dict.lookup end_sessions_for
ann_stays = refl

identity-handle_delete_user_example :
    (ann_shown.0.is_local ≡ true) ⊎ (ann_shown.0.username ≢ codes "bob")
identity-handle_delete_user_example =
    identity-handle_delete_user (codes "tok") digest (codes "bob") world vault (60 * second) request
      ann_shown deleted ann_stays

abbrev off : Changes
off = record { role = none; disabled = some true; folders = none }

abbrev demote : Changes
demote = record { role = some family; disabled = none; folders = none }

abbrev bob_demoted : View
bob_demoted = view (record bob { role = family; updated_at = codes "t2" })

demoted : (handle_update_user (codes "bob") demote world vault).1 ≡ ok bob_demoted
unfolding handle_update_user Store.update Store.check_changed Store.find_last Store.set_last
    active_admins str_eq check_grants check_grant has_prefix validate_folder ends_with split
    check_components check_component contains view
demoted = refl

ann_stays_on :
    (identity
      (codes "tok")
      digest
      (60 * second)
      request
      (handle_update_user (codes "bob") demote world vault).0).1
    ≡ some ann_shown
unfolding handle_update_user Store.update Store.check_changed Store.find_last Store.set_last
    active_admins str_eq check_grants check_grant has_prefix validate_folder ends_with split
    check_components check_component contains view identity session Dict.lookup end_sessions_for
ann_stays_on = refl

identity-handle_update_user_example :
    (ann_shown.0.is_local ≡ true) ⊎ (ann_shown.0.username ≢ codes "bob")
identity-handle_update_user_example =
    identity-handle_update_user (codes "tok") digest (codes "bob") demote world vault bob_demoted
      (60 * second) request ann_shown (inl (family, refl)) demoted ann_stays_on

-- Vault before the first account
abbrev empty : Server
empty = record vault { users = record { users = []; file = none } }

managed : IsManaged empty
unfolding AreDistinct open_store
managed = (inl refl, (tt, tt), refl)

-- Ann comes as the first account, and is neither deleted nor disabled by the requests after that.
abbrev calls : List Call
calls =
    Requests.add
      (record { username = codes "ann"; password = codes "pw"; role = guest; folders = none })
      (codes "ann") [] world request
    ∷ Requests.remove (codes "ann") world
    ∷ Requests.edit (codes "ann") off world
    ∷ Requests.sign_in (codes "ann") right world request
    ∷ []

serve_all-IsManaged_example :
    IsManaged (serve_all digest fits mac decode strong stretch calls empty)
serve_all-IsManaged_example =
    serve_all-IsManaged digest fits mac decode strong stretch calls empty managed

abbrev bob_new : User
bob_new = record bob { password_hash = codes "pw3"; updated_at = codes "t2" }

abbrev fresh : Server
fresh = (handle_reset_password strong stretch (codes "bob") (codes "pw3") world vault).0

reset :
    (handle_reset_password strong stretch (codes "bob") (codes "pw3") world vault).1 ≡ ok bob_new
unfolding handle_reset_password Store.update Store.check_changed Store.find_last Store.set_last
    active_admins str_eq check_grants check_grant has_prefix validate_folder ends_with split
    check_components check_component contains
reset = refl

ann_stays_in : (identity (codes "tok") digest (60 * second) request fresh).1 ≡ some ann_shown
unfolding handle_reset_password Store.update Store.check_changed Store.find_last Store.set_last
    active_admins str_eq check_grants check_grant has_prefix validate_folder ends_with split
    check_components check_component contains identity session Dict.lookup end_sessions_for
ann_stays_in = refl

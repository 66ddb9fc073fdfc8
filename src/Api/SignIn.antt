-- ===== src/Api/SignIn.antt =====
-- internal/api/auth_handlers.go: signing in with a password, and out. `verify` is the check of a
-- password against a stored argon2id hash, `lower` is `strings.ToLower`; the two sides of TOTP are as
-- in Auth.Totp. Signing in to Files as well is left out.
pub mod Sound
pub mod Guesses
pub mod Replay
use omarchy_vault.Prelude.{
  ℕ, ◌/◌, ◌++◌, GoString, codes, str_eq, is_empty, Bool, true, false, not, ◌&&◌, ◌||◌, ltb,
  if◌then◌else◌, Option, none, some, List, [], ◌∷◌, length, Result, ok, err,
}
use omarchy_vault.Disks.Display.{trim_space}
use omarchy_vault.Users.Accounts.{User, View, view}
use omarchy_vault.Users.Store
use omarchy_vault.Auth.Limiter.{blocked, fail, succeed}
use omarchy_vault.Auth.Local
use omarchy_vault.Auth.Local.{Identity}
use omarchy_vault.Auth.Totp.{verify_totp}
use omarchy_vault.Api.Server.{
  Server, Request, Refusal, Reply, locked, bad_credentials, totp_required, bad_totp, missing_intent,
  internal,
}

-- `LoginRequest`
pub record LoginRequest : Type 0 where
  pub username : GoString
  pub password : GoString
  pub totp : GoString

-- What the environment answers in one sign-in: the readings of the clock in nanoseconds, the time as
-- text, whether the accounts can be saved, and the draw of the session's id.
pub record World : Type 0 where
  pub blocked_at : ℕ
  pub failed_at : ℕ
  pub totp_at : ℕ
  pub session_at : ℕ
  pub stamp : GoString
  pub saved : Bool
  pub draw : Option GoString

abbrev pub max_password_len : ℕ
max_password_len = 256

abbrev pub keys_of : GoString → Request → List GoString
keys_of name r = (codes "user:" ++ name) ∷ (codes "ip:" ++ r.client_ip) ∷ []

abbrev pub account_of : User → Identity
account_of u = record { username = u.username; role = u.role; is_local = false }

-- the caller's function of `Update` in `handlePasswordLogin`
abbrev pub used : ℕ → User → Result Store.UserError User
used counter u = ok (record u { totp_last = counter })

abbrev pub refuse_count : {A : Type 0} → Refusal → World → List GoString → Server → Reply A
refuse_count e w keys s = (record s { limiter = fail w.failed_at keys s.limiter }, err e)

-- `Update` of the last step used; its error is only logged
abbrev pub record_step : ℕ → User → World → Server → Server
record_step counter u w s = record s {
  users = (Store.update u.username (used counter) w.stamp w.saved s.users).0;
}

-- the reply of a handler that has called `signIn`, whose error comes first
abbrev pub reply_after : {A : Type 0} → A → Server × Bool → Reply A
reply_after v (s, true) = (s, ok v)
reply_after v (s, false) = (s, err internal)

module _ (hash : GoString → GoString) where
  abbrev pub end_cookie : Option GoString → Local.Local → Local.Local
  end_cookie none l = l
  end_cookie (some old) l = Local.end_session hash old l

  -- the rest of `signIn`, which ends the session that the browser had before; whether there is a session
  abbrev pub sign_in_as : Local.Local × Option GoString → Request → Server → Server × Bool
  sign_in_as (l, none) r s = (record s { local = l }, false)
  sign_in_as (l, some sid) r s = (record s { local = end_cookie r.cookie l }, true)

  -- `signIn`; without a session it has answered with an error of its own
  unfoldable pub sign_in : User → World → Request → Server → Server × Bool
  sign_in u w r s =
      sign_in_as (Local.new_session hash (account_of u) w.session_at w.draw s.local) r s

  -- `handleLogout`
  unfoldable pub handle_logout : Request → Server → Reply (Unit {0})
  handle_logout r s =
      if str_eq r.intent (codes "1")
      then (record s { local = end_cookie r.cookie s.local }, ok tt)
      else (s, err missing_intent)

  -- the end of a sign-in that has passed every check
  abbrev pub welcome : User → World → Request → List GoString → Server → Reply View
  welcome u w r keys s =
      reply_after (view u) (sign_in u w r (record s { limiter = succeed keys s.limiter }))

  abbrev pub after_totp : Option ℕ → User → World → Request → List GoString → Server → Reply View
  after_totp none u w r keys s = refuse_count bad_totp w keys s
  after_totp (some counter) u w r keys s = welcome u w r keys (record_step counter u w s)

module _ (hash : GoString → GoString) (verify : GoString → GoString → Bool)
    (hmac_sha1 : GoString → List ℕ → List ℕ) (decode : GoString → Option GoString) where
  abbrev pub step_of : LoginRequest → User → World → Option ℕ
  step_of q u w =
      verify_totp hmac_sha1 decode u.totp_secret q.totp (w.totp_at / Local.second) u.totp_last

  -- the second factor
  abbrev pub check_totp :
      LoginRequest → User → World → Request → List GoString → Server → Reply View
  check_totp q u w r keys s =
      if not u.totp_enabled
      then welcome hash u w r keys s
      else if is_empty (trim_space q.totp)
      then (s, err totp_required)
      else after_totp hash (step_of q u w) u w r keys s

  abbrev pub is_wrong : LoginRequest → User → Bool
  is_wrong q u =
      ltb max_password_len (length q.password)
      || (not (verify q.password u.password_hash) || u.disabled)

  abbrev pub check_password :
      LoginRequest → Option User → World → Request → List GoString → Server → Reply View
  check_password q none w r keys s = refuse_count bad_credentials w keys s
  check_password q (some u) w r keys s =
      if is_wrong q u then refuse_count bad_credentials w keys s else check_totp q u w r keys s

  -- `handlePasswordLogin` for a name in its normal form
  unfoldable pub login_as : GoString → LoginRequest → World → Request → Server → Reply View
  login_as name q w r s =
      if (blocked w.blocked_at s.limiter (keys_of name r)).1
      then (s, err locked)
      else check_password q (Store.get name s.users) w r (keys_of name r) s

  -- `handlePasswordLogin` after the body is decoded
  unfoldable pub handle_password_login :
      (GoString → GoString) → LoginRequest → World → Request → Server → Reply View
  unfolding login_as
  handle_password_login lower q w r s = login_as (lower (trim_space q.username)) q w r s

-- ===== src/Api/Gate.antt =====
-- internal/api/auth_handlers.go: who makes a request, and what `gate` lets through.
pub mod Sound
use omarchy_vault.Prelude.{
  ℕ, GoString, codes, str_eq, is_empty, Bool, true, false, not, ◌&&◌, ◌||◌, ltb, if◌then◌else◌,
  Option, none, some, [], Result, ok, err,
}
use omarchy_vault.Users.Names.{admin}
use omarchy_vault.Users.Accounts.{User}
use omarchy_vault.Users.Store.{get, count}
use omarchy_vault.Auth.Local
use omarchy_vault.Auth.Local.{Identity}
use omarchy_vault.Api.Server.{
  Server, Request, Refusal, Reply, login_required, missing_intent, admin_only,
}

-- `localIdentity`
abbrev pub local_identity : Identity
local_identity = record { username = codes "local"; role = admin; is_local = true }

-- `identityFrom` where the request carries none
abbrev pub nobody : Identity
nobody = record { username = []; role = []; is_local = false }

-- `accountsExist`
abbrev pub accounts_exist : Server → Bool
accounts_exist s = ltb 0 (count s.users)

abbrev pub is_read : Request → Bool
is_read r = str_eq r.method (codes "GET") || str_eq r.method (codes "HEAD")

-- An identity, and whether a cookie showed it.
abbrev pub Shown : Type 0
Shown = Identity × Bool

-- `secret` is the local token, `hash` the hash of session ids
module _ (secret : GoString) (hash : GoString → GoString) where
  -- `Local.CheckToken` by `Equal`
  abbrev pub check_token : GoString → Bool
  check_token tok = not (is_empty tok) && str_eq tok secret

  -- `localToken`
  abbrev pub has_local_token : Request → Bool
  has_local_token r = r.from_socket && check_token r.token

  abbrev pub sign_out : GoString → Server → Server
  sign_out sid s = record s { local = Local.end_session hash sid s.local }

  -- the account of a session is read again at each request
  abbrev pub recheck : GoString → Identity → Option User → Server → Server × Option Shown
  recheck sid id none s = (sign_out sid s, none)
  recheck sid id (some u) s =
      if u.disabled || not (str_eq u.role id.role)
      then (sign_out sid s, none)
      else (s, some (id, true))

  abbrev pub by_session : GoString → Option Identity → Server → Server × Option Shown
  by_session sid none s = (s, none)
  by_session sid (some id) s =
      if id.is_local then (s, some (id, true)) else recheck sid id (get id.username s.users) s

  abbrev pub by_cookie : ℕ → Option GoString → Server → Server × Option Shown
  by_cookie now none s = (s, none)
  by_cookie now (some sid) s = by_session sid (Local.session hash sid now s.local) s

  -- `identity`
  unfoldable pub identity : ℕ → Request → Server → Server × Option Shown
  identity now r s =
      if s.is_demo && not (accounts_exist s)
      then (s, some (local_identity, false))
      else if not (is_empty r.token)
      then (s, if has_local_token r then some (local_identity, false) else none)
      else by_cookie now r.cookie s

  -- The decision of `gate` on an identity: who the handler runs as.
  abbrev pub admit : Bool → Request → Option Shown → Server → Reply Identity
  admit admins r none s =
      if is_read r && not (accounts_exist s) then (s, ok nobody) else (s, err login_required)
  admit admins r (some (id, via_cookie)) s =
      if via_cookie && not (is_read r) && not (str_eq r.intent (codes "1"))
      then (s, err missing_intent)
      else if admins && not (str_eq id.role admin)
      then (s, err admin_only)
      else (s, ok id)

  unfoldable pub decide : Bool → ℕ → Request → Server → Reply Identity
  unfolding identity
  decide admins now r s = let (s', shown) = identity now r s in admit admins r shown s'

  abbrev pub pass_on : {A : Type 0} → (Identity → Server → Reply A) → Reply Identity → Reply A
  pass_on next (s, err e) = (s, err e)
  pass_on next (s, ok id) = next id s

  -- `gate`
  unfoldable pub gate :
      {A : Type 0} → Bool → (Identity → Server → Reply A) → ℕ → Request → Server → Reply A
  unfolding decide
  gate admins next now r s = pass_on next (decide admins now r s)

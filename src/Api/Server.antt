-- ===== src/Api/Server.antt =====
-- internal/api/server.go: the state behind the dashboard, with every component present, as vaultd
-- builds it. A handler returns the new state and its reply.
use omarchy_vault.Prelude.{GoString, Bool, Option, Result}
use omarchy_vault.Users.Store
use omarchy_vault.Auth.Limiter.{Limiter}
use omarchy_vault.Auth.Local

-- `Server`, as far as accounts go: `Users`, `Auth`, `Limiter` and `Demo`
pub record Server : Type 0 where
  pub users : Store.Store
  pub local : Local.Local
  pub limiter : Limiter
  pub is_demo : Bool

-- What the handlers read of a request: a header or cookie that is not there is empty.
pub record Request : Type 0 where
  pub method : GoString
  pub token : GoString
  pub from_socket : Bool
  pub cookie : Option GoString
  pub intent : GoString
  pub client_ip : GoString

-- The refusals of `writeError`, by their code.
pub data Refusal : Type 0 where
  login_required missing_intent admin_only : Refusal
  bad_token busy bad_request locked bad_credentials totp_required bad_totp : Refusal
  not_found last_admin invalid conflict bad_username weak_password internal : Refusal
  local_session totp_enabled : Refusal

abbrev pub Reply : Type 0 → Type 0
Reply A = Server × Result Refusal A

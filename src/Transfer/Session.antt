-- ===== src/Transfer/Session.antt =====
-- internal/transfer/store.go: a transfer link as the callers see it. Times are nanoseconds since the
-- epoch; counts and sizes are never negative.
use omarchy_vault.Prelude.{ℕ, GoString, Bool, true, false, not, ◌&&◌, ltb, is_empty, if◌then◌else◌}

pub data Kind : Type 0 where
  upload download share : Kind

unfoldable pub kind_eq : Kind → Kind → Bool
kind_eq upload upload = true
kind_eq download download = true
kind_eq share share = true
kind_eq _ _ = false

pub record Session : Type 0 where
  pub id : GoString
  pub kind : Kind
  pub folder : GoString
  pub path : GoString
  pub created_by : GoString
  pub client : GoString
  pub created_at : ℕ
  pub expires_at : ℕ
  pub revoked : Bool
  pub max_files : ℕ
  pub max_bytes : ℕ
  pub files : ℕ
  pub bytes : ℕ
  pub has_password : Bool
  pub password_hash : GoString

-- `Session.Active`
unfoldable pub active : Session → ℕ → Bool
active s t =
    not s.revoked && (ltb t s.expires_at && (ltb s.files s.max_files && ltb s.bytes s.max_bytes))

-- `Session.CheckPassword`; `verify` is `auth.VerifyPassword`, argon2id in constant time.
unfoldable pub check_password : (GoString → GoString → Bool) → Session → GoString → Bool
check_password verify s pw = if is_empty s.password_hash then true else verify pw s.password_hash

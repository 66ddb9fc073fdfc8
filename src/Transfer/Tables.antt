-- ===== src/Transfer/Tables.antt =====
-- internal/transfer/store.go: the session and activity tables. A table is the list of its rows in
-- the order of their row ids. Every statement takes a flag that says whether the database answers;
-- a statement that fails changes nothing. Stored times are milliseconds.
use omarchy_vault.Prelude.{
  ℕ, ◌*◌, ◌/◌, GoString, str_eq, is_empty, Bool, true, false, not, if◌then◌else◌, Option, none,
  some, List, [], map,
}
use omarchy_vault.Transfer.Session.{Kind, Session}

pub record Row : Type 0 where
  pub id : GoString
  pub token_hash : GoString
  pub kind : Kind
  pub folder : GoString
  pub created_by : GoString
  pub client : GoString
  pub created_at : ℕ
  pub expires_at : ℕ
  pub revoked_at : Option ℕ
  pub max_files : ℕ
  pub max_bytes : ℕ
  pub files : ℕ
  pub bytes : ℕ
  pub path : GoString
  pub password_hash : GoString

pub record Activity : Type 0 where
  pub seq : ℕ
  pub at : ℕ
  pub session_id : GoString
  pub kind : Kind
  pub folder : GoString
  pub name : GoString
  pub size : ℕ
  pub actor : GoString

pub record Db : Type 0 where
  pub sessions : List Row
  pub activity : List Activity
  pub next_seq : ℕ

abbrev pub empty : Db
empty = record { sessions = []; activity = []; next_seq = 1 }

pub data StoreError : Type 0 where
  not_found expired revoked used_up limit : StoreError
  -- an error of the driver, and one of the random source
  db_error random_error : StoreError

pub record NewSession : Type 0 where
  pub kind : Kind
  pub folder : GoString
  pub created_by : GoString
  pub client : GoString
  pub ttl : ℕ
  pub max_files : ℕ
  pub max_bytes : ℕ
  pub path : GoString
  pub password_hash : GoString

-- `time.Time.UnixMilli` and `time.UnixMilli`
abbrev pub unix_milli : ℕ → ℕ
unix_milli t = t / 1000000

abbrev pub from_milli : ℕ → ℕ
from_milli m = m * 1000000

abbrev pub is_some : Option ℕ → Bool
is_some none = false
is_some (some _) = true

unfoldable pub scan : Row → Session
scan r = record {
  id = r.id;
  kind = r.kind;
  folder = r.folder;
  path = r.path;
  created_by = r.created_by;
  client = r.client;
  created_at = from_milli r.created_at;
  expires_at = from_milli r.expires_at;
  revoked = is_some r.revoked_at;
  max_files = r.max_files;
  max_bytes = r.max_bytes;
  files = r.files;
  bytes = r.bytes;
  has_password = not (is_empty r.password_hash);
  password_hash = r.password_hash;
}

abbrev pub has_id : GoString → Row → Bool
has_id id r = str_eq r.id id

-- `UPDATE sessions SET … WHERE …`, and how many rows it affects
abbrev pub update : (Row → Bool) → (Row → Row) → List Row → List Row
update p f = map (λ r. if p r then f r else r)

-- ===== src/Transfer/Store.antt =====
-- internal/transfer/store.go: the operations of `Store`. Every statement takes a flag that says
-- whether the database answers; a statement that fails changes nothing.
pub mod Usable
pub mod Runs
pub mod RowInvariants
pub mod Limits
mod Tests
pub mod Retention
pub mod Revocation
pub mod Log
pub mod Uses
use mathlib.Core.List.{reverse}
use omarchy_vault.Prelude.{
  ℕ, zero, suc, ◌+◌, ◌-◌, ◌*◌, GoString, str_eq, is_empty, Bool, true, false, not, ◌&&◌, ◌||◌, ltb,
  leb, ◌==◌, if◌then◌else◌, Option, none, some, List, [], ◌∷◌, ◌++◌, map, length, any, filter,
  find?, Result, ok, err,
}
use omarchy_vault.Transfer.Session.{Kind, kind_eq, Session}
use omarchy_vault.Transfer.Tables.{
  Row, Activity, Db, StoreError, not_found, expired, revoked, used_up, limit, db_error,
  random_error, NewSession, unix_milli, from_milli, is_some, scan, has_id, update,
}

-- What `Lookup` returns: a session, a session with an error, or the error alone.
pub data Looked : Type 0 where
  usable : Session → Looked
  refused : Session → StoreError → Looked
  failed : StoreError → Looked

-- the switch at the end of `Lookup`
unfoldable pub judge : Session → ℕ → Looked
judge s now =
    if s.revoked
    then refused s revoked
    else if leb s.expires_at now
    then refused s expired
    else if leb s.max_files s.files || leb s.max_bytes s.bytes
    then refused s used_up
    else usable s

abbrev pub or_not_found : Option Row → ℕ → Looked
or_not_found none now = failed not_found
or_not_found (some r) now = judge (scan r) now

module _ (sha256 : GoString → GoString) where
  pub new_row : NewSession → ℕ → GoString → GoString → Row
  new_row n now id token = record {
    id = id;
    token_hash = sha256 token;
    kind = n.kind;
    folder = n.folder;
    created_by = n.created_by;
    client = n.client;
    created_at = unix_milli now;
    expires_at = unix_milli (now + n.ttl);
    revoked_at = none;
    max_files = n.max_files;
    max_bytes = n.max_bytes;
    files = 0;
    bytes = 0;
    path = n.path;
    password_hash = n.password_hash;
  }

  -- The session that `Create` returns keeps the whole nanoseconds.
  pub new_session : NewSession → ℕ → GoString → Session
  new_session n now id = record {
    id = id;
    kind = n.kind;
    folder = n.folder;
    path = n.path;
    created_by = n.created_by;
    client = n.client;
    created_at = now;
    expires_at = now + n.ttl;
    revoked = false;
    max_files = n.max_files;
    max_bytes = n.max_bytes;
    files = 0;
    bytes = 0;
    has_password = not (is_empty n.password_hash);
    password_hash = n.password_hash;
  }

  -- The primary key and the UNIQUE column.
  taken : Row → List Row → Bool
  taken r rows = any (λ x. str_eq x.id r.id || str_eq x.token_hash r.token_hash) rows

  -- `Store.Create`; the two draws of `auth.Random` are arguments, `none` where one fails.
  unfoldable pub create :
      NewSession
      → ℕ
      → Option GoString
      → Option GoString
      → Bool
      → Db
      → Db × Result StoreError (Session × GoString)
  unfolding new_row new_session taken
  create n now none token up db = (db, err random_error)
  create n now (some id) none up db = (db, err random_error)
  create n now (some id) (some token) up db =
      let r = new_row n now id token in
      if up && not (taken r db.sessions)
      then (record db { sessions = db.sessions ++ r ∷ [] }, ok (new_session n now id, token))
      else (db, err db_error)

  -- `WHERE token_hash = ? AND kind = ?`
  abbrev pub has_token : GoString → Kind → Row → Bool
  has_token token kind r = str_eq r.token_hash (sha256 token) && kind_eq r.kind kind

  -- `Store.Lookup`
  unfoldable pub lookup : GoString → Kind → ℕ → Bool → Db → Looked
  lookup token kind now up db =
      if ltb (length token) 40 || ltb 64 (length token)
      then failed not_found
      else if up
      then or_not_found (find? (has_token token kind) db.sessions) now
      else failed db_error

-- `Store.Get`
unfoldable pub get : GoString → Bool → Db → Result StoreError Session
get id false db = err db_error
get id true db = elim (find? (has_id id) db.sessions) [
  | none ↦ err not_found
  | some r ↦ ok (scan r)
]

abbrev pub is_live : ℕ → Row → Bool
is_live now_ms r =
    not (is_some r.revoked_at)
    && (ltb now_ms r.expires_at && (ltb r.files r.max_files && ltb r.bytes r.max_bytes))

-- `ORDER BY created_at DESC`
insert_newest : Row → List Row → List Row
insert_newest r [] = r ∷ []
insert_newest r (x ∷ xs) =
    if ltb r.created_at x.created_at then x ∷ insert_newest r xs else r ∷ x ∷ xs

unfoldable pub newest_first : List Row → List Row
unfolding insert_newest
newest_first [] = []
newest_first (r ∷ rs) = insert_newest r (newest_first rs)

-- `Store.Active`
unfoldable pub active_list : ℕ → Bool → Db → Result StoreError (List Session)
active_list now false db = err db_error
active_list now true db =
    ok (map scan (newest_first (filter (is_live (unix_milli now)) db.sessions)))

unfoldable pub can_revoke : GoString → Row → Bool
can_revoke id r = has_id id r && not (is_some r.revoked_at)

-- the SET clauses of the UPDATE statements
abbrev pub stop : ℕ → Row → Row
stop now r = record r { revoked_at = some (unix_milli now) }

abbrev pub use_once : Row → Row
use_once r = record r { files = r.files + 1 }

abbrev pub give_back : Row → Row
give_back r = record r { files = r.files - 1 }

abbrev pub add_bytes : ℕ → Row → Row
add_bytes size r = record r { bytes = r.bytes + size }

-- `Store.Revoke`: the second flag is for the `Get` that follows where no row changed.
unfoldable pub revoke : GoString → ℕ → Bool → Bool → Db → Db × Result StoreError Unit
unfolding can_revoke
revoke id now false up₂ db = (db, err db_error)
revoke id now true up₂ db =
    let db' = record db { sessions = update (can_revoke id) (stop now) db.sessions } in
    if length (filter (can_revoke id) db.sessions) == 0
    then (db', elim (get id up₂ db') [ ok _ ↦ ok tt | err e ↦ err e ])
    else (db', ok tt)

abbrev pub can_reserve : GoString → Row → Bool
can_reserve id r =
    has_id id r
    && (not (is_some r.revoked_at) && (ltb r.files r.max_files && ltb r.bytes r.max_bytes))

-- `Store.Reserve`
unfoldable pub reserve : GoString → Bool → Db → Db × Result StoreError Unit
reserve id false db = (db, err db_error)
reserve id true db =
    let db' = record db { sessions = update (can_reserve id) use_once db.sessions } in
    if length (filter (can_reserve id) db.sessions) == 0 then (db', err limit) else (db', ok tt)

-- `Store.Release`: `MAX(files - 1, 0)` is the subtraction of ℕ. A failure is ignored.
unfoldable pub release : GoString → Bool → Db → Db
release id false db = db
release id true db = record db { sessions = update (has_id id) give_back db.sessions }

-- the statements of the transaction of `Record`, in order
pub record TxReplies : Type 0 where
  pub begin_ok : Bool
  pub update_ok : Bool
  pub insert_ok : Bool
  pub commit_ok : Bool

abbrev log_entry : Session → GoString → ℕ → ℕ → ℕ → Activity
log_entry s name size now seq = record {
  seq = seq;
  at = unix_milli now;
  session_id = s.id;
  kind = s.kind;
  folder = s.folder;
  name = name;
  size = size;
  actor = s.created_by;
}

-- `Store.Record`: a transaction that does not commit is rolled back.
unfoldable pub record_transfer :
    Session → GoString → ℕ → ℕ → TxReplies → Db → Db × Result StoreError Unit
record_transfer s name size now tx db =
    let updated = record db { sessions = update (has_id s.id) (add_bytes size) db.sessions } in
    let inserted = record updated {
      activity = db.activity ++ log_entry s name size now db.next_seq ∷ [];
      next_seq = db.next_seq + 1;
    } in
    if tx.begin_ok && (tx.update_ok && (tx.insert_ok && tx.commit_ok))
    then (inserted, ok tt)
    else (db, err db_error)

abbrev remaining_of : Option Row → Result StoreError ℕ
remaining_of none = err db_error
remaining_of (some r) = if leb r.max_bytes r.bytes then ok 0 else ok (r.max_bytes - r.bytes)

-- `Store.Remaining`: a missing row is the driver's `sql.ErrNoRows`.
unfoldable pub remaining : GoString → Bool → Db → Result StoreError ℕ
remaining id false db = err db_error
remaining id true db = remaining_of (find? (has_id id) db.sessions)

pub record Item : Type 0 where
  pub at : ℕ
  pub kind : Kind
  pub folder : GoString
  pub name : GoString
  pub size : ℕ
  pub actor : GoString

-- the scan of `items`
unfoldable pub to_item : Activity → Item
to_item a = record {
  at = from_milli a.at;
  kind = a.kind;
  folder = a.folder;
  name = a.name;
  size = a.size;
  actor = a.actor;
}

-- `Store.Received`: `ORDER BY id` is the order of the table.
unfoldable pub received : GoString → Bool → Db → Result StoreError (List Item)
unfolding to_item
received id false db = err db_error
received id true db = ok (map to_item (filter (λ a. str_eq a.session_id id) db.activity))

abbrev take : ℕ → List Activity → List Activity
take zero xs = []
take (suc n) [] = []
take (suc n) (x ∷ xs) = x ∷ take n xs

-- `Store.Recent`
unfoldable pub recent : ℕ → Bool → Db → Result StoreError (List Item)
unfolding to_item
recent n false db = err db_error
recent n true db = ok (map to_item (take n (reverse db.activity)))

abbrev pub day : ℕ
day = 24 * 3600 * 1000000000

-- the rows that the first statement of `Prune` keeps
abbrev pub recent_enough : ℕ → Row → Bool
recent_enough now r = not (ltb r.expires_at (unix_milli (now - 7 * day)))

-- `Store.Prune`: two statements; the second is not run where the first fails.
unfoldable pub prune : ℕ → Bool → Bool → Db → Db × Result StoreError Unit
prune now false up₂ db = (db, err db_error)
prune now true up₂ db =
    let db' = record db { sessions = filter (recent_enough now) db.sessions } in
    if up₂
    then (
      record db' {
        activity = filter (λ a. not (ltb a.at (unix_milli (now - 90 * day)))) db.activity;
      },
      ok tt,
    )
    else (db', err db_error)

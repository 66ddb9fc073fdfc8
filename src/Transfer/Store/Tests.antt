-- ===== src/Transfer/Store/Tests.antt =====
-- internal/transfer/store.go: runs at small inputs, and the theorems at inputs that meet their
-- hypotheses.
use omarchy_vault.Prelude.{
  ◌+◌, ◌*◌, ◌^◌, ◌≤◌, ◌≡◌, ◌≢◌, refl, ◌⊎◌, GoString, codes, str_eq, true, false, some, List, [],
  ◌∷◌, find?, In, Result, ok, err, arith, ◌↔◌,
}
use omarchy_vault.Transfer.Session.{download, Session, active}
use omarchy_vault.Transfer.Tables.{Row, Db, empty, NewSession, StoreError, db_error, limit, scan}
use omarchy_vault.Transfer.Store
use omarchy_vault.Transfer.Store.{
  Looked, usable, failed, lookup, new_row, new_session, has_token, active_list, received, TxReplies,
}
use omarchy_vault.Transfer.Store.Usable.{
  stored, lookup-eq-usable_iff, lookup-create, lookup-active_list,
}
use omarchy_vault.Transfer.Store.Runs.{
  Op, reserve, release, prune, run, is_ok, count_grants, count_releases,
}
use omarchy_vault.Transfer.Store.Uses.{left, copies, count_grants-le}
use omarchy_vault.Transfer.Store.Revocation.{revoke_is_final}
use omarchy_vault.Transfer.Store.Log.{IsRecorded, record_transfer_lem}

abbrev digest : GoString → GoString
digest t = t

abbrev id : GoString
id = codes "link-1"

abbrev token : GoString
token = codes "0123456789012345678901234567890123456789012"

abbrev one_download : NewSession
one_download = record {
  kind = download;
  folder = codes "Photos";
  created_by = codes "ann";
  client = [];
  ttl = 600 * 1000000000;
  max_files = 1;
  max_bytes = 2 ^ 62;
  path = codes "Photos/a.jpg";
  password_hash = [];
}

abbrev db : Db
db = record {
  sessions = new_row digest one_download 5000001 id token ∷ [];
  activity = [];
  next_seq = 1;
}

abbrev made : Session
made = new_session digest one_download 5000001 id

created :
    Store.create digest one_download 5000001 (some id) (some token) true empty
    ≡ (db, ok (made, token))
unfolding Store.create
created = refl

lookup-create_example : lookup digest token download 6000000 true db ≡ usable (stored made)
lookup-create_example =
    lookup-create digest one_download 5000001 6000000 id token empty db made created (omega arith)
      (omega arith) (omega arith) (omega arith)

lookup-eq-usable_iff_example :
    (lookup digest token download 6000000 true db ≡ usable (stored made)) ↔ (
      (r : Row) × (find? (has_token digest token download) db.sessions ≡ some r)
      × (scan r ≡ stored made)
      × (active (stored made) 6000000 ≡ true))
lookup-eq-usable_iff_example =
    lookup-eq-usable_iff digest token download 6000000 db (stored made) (omega arith)

listed : active_list 6000000 true db ≡ ok (stored made ∷ [])
unfolding active_list Store.newest_first new_row new_session scan
listed = refl

lookup-active_list_example : In (stored made) (stored made ∷ [])
lookup-active_list_example =
    lookup-active_list digest token download 6000000 db (stored made) (stored made ∷ [])
      (omega arith) lookup-create_example listed

abbrev tries : List Op
tries = reserve id true ∷ prune 7000000 true true ∷ reserve id true ∷ release id true ∷ []

one_row : copies id db ≤ 1
unfolding copies new_row str_eq
one_row = omega arith

count_grants-le_example :
    count_grants digest id tries db + left id (run digest tries db)
    ≤ left id db + count_releases id tries
count_grants-le_example = count_grants-le digest id tries db (tt, (tt, (tt, (tt, tt)))) one_row

revoke_is_final_example :
    ((s : Session)
      → lookup digest token download 7000000 true
          (run digest (reserve id true ∷ []) (Store.revoke id 6000000 true true db).0)
        ≡ usable s
      → s.id ≢ id)
    × (is_ok
          (Store.reserve id true
            (run digest (reserve id true ∷ []) (Store.revoke id 6000000 true true db).0)).1
        ≡ false)
revoke_is_final_example =
    revoke_is_final digest id 6000000 7000000 true true db (reserve id true ∷ []) token download
      (tt, tt) (omega arith)

abbrev used : Db
used = (Store.reserve id true db).0

reserved : Store.reserve id true db ≡ (used, ok tt)
unfolding Store.reserve new_row str_eq
reserved = refl

abbrev commits : TxReplies
commits = record { begin_ok = true; update_ok = true; insert_ok = true; commit_ok = true }

abbrev logged_db : Db
logged_db = (Store.record_transfer made (codes "a.jpg") 12 8000000 commits db).0

record_commits :
    Store.record_transfer made (codes "a.jpg") 12 8000000 commits db ≡ (logged_db, ok tt)
unfolding Store.record_transfer
record_commits = refl

record_transfer_lem_example :
    ((◌≡◌ {A = Result StoreError Unit} (ok tt) (ok tt))
      × IsRecorded made (codes "a.jpg") 12 8000000 db logged_db)
    ⊎ ((◌≡◌ {A = Result StoreError Unit} (ok tt) (err db_error)) × (logged_db ≡ db))
record_transfer_lem_example =
    record_transfer_lem made (codes "a.jpg") 12 8000000 commits db logged_db (ok tt) record_commits

-- A second download of a link for one is refused.
second_refused : (Store.reserve id true used).1 ≡ err limit
unfolding Store.reserve new_row str_eq
second_refused = refl

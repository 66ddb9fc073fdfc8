-- ===== src/Transfer/Store/Log.antt =====
-- internal/transfer/store.go: `Record` and the lists of what was transferred.
use mathlib.Core.List.{append-nil, map-append}
use omarchy_vault.Prelude.{
  ℕ, ◌-◌, ◌≡◌, ◌≢◌, refl, GoString, str_eq, str_eq_iff, str_eq_refl, Bool, true, List, [], ◌∷◌,
  ◌++◌, map, filter, find?, Option, none, some, Result, ok, err, arith, if◌then◌else◌, ◌⊎◌, inl,
  inr, ◌&&◌, ◌∙◌, Bool-cases,
}
use omarchy_vault.Transfer.Session.{Session}
use omarchy_vault.Transfer.Tables.{
  Row, Activity, Db, StoreError, db_error, has_id, update, unix_milli, from_milli,
}
use omarchy_vault.Transfer.Store.{
  TxReplies, Item, record_transfer, received, remaining, add_bytes, log_entry, to_item,
  remaining_of,
}

-- the item that `Record` logs
abbrev logged : Session → GoString → ℕ → ℕ → Item
logged s name size now = record {
  at = from_milli (unix_milli now);
  kind = s.kind;
  folder = s.folder;
  name = name;
  size = size;
  actor = s.created_by;
}

filter-append :
    (p : Activity → Bool) (xs : List Activity) (a : Activity)
    → filter p (xs ++ a ∷ []) ≡ filter p xs ++ (if p a then a ∷ [] else [])
filter-append p [] a = ground arith
filter-append p (x ∷ xs) a = ground (arith, filter-append p xs a)

find?-update :
    (id : GoString) (size : ℕ) (rows : List Row)
    → find? (has_id id) (update (has_id id) (add_bytes size) rows)
      ≡ (elim (find? (has_id id) rows) [ none ↦ none | some r ↦ some (add_bytes size r) ])
find?-update id size [] = refl
find?-update id size (r ∷ rows) = ground (arith, find?-update id size rows)

abbrev less : ℕ → Result StoreError ℕ → Result StoreError ℕ
less size (ok n) = ok (n - size)
less size (err e) = err e

remaining-add_bytes :
    (id : GoString) (size : ℕ) (db db' : Db)
    → db'.sessions ≡ update (has_id id) (add_bytes size) db.sessions
    → remaining id true db' ≡ less size (remaining id true db)
unfolding remaining
remaining-add_bytes id size db db' e =
    rw (e, find?-update id size db.sessions) (go (find? (has_id id) db.sessions))
  where
    go :
        (o : Option Row)
        → remaining_of (elim o [ none ↦ none | some r ↦ some (add_bytes size r) ])
          ≡ less size (remaining_of o)
    go none = refl
    go (some r) = ground arith

-- the items that `Received` lists when the database answers
abbrev pub items : GoString → Db → List Item
items id db = map to_item (filter (λ a. str_eq a.session_id id) db.activity)

received_lem : (id : GoString) (db : Db) → received id true db ≡ ok (items id db)
unfolding received
received_lem id db = refl

received-append :
    (id : GoString) (a : Activity) (db db' : Db)
    → db'.activity ≡ db.activity ++ a ∷ []
    → received id true db'
      ≡ ok (items id db ++ map to_item (if str_eq a.session_id id then a ∷ [] else []))
received-append id a db db' e =
    rw (
      received_lem id db',
      e,
      filter-append (λ x. str_eq x.session_id id) db.activity a,
      map-append,
    )

-- What a successful `Record` changes.
pub record IsRecorded (s : Session) (name : GoString) (size now : ℕ) (db db' : Db) : Type 0 where
  -- the transfer is listed last under its link
  pub listed : received s.id true db' ≡ ok (items s.id db ++ logged s name size now ∷ [])
  -- the lists of other links stay
  pub others : (id : GoString) → s.id ≢ id → received id true db' ≡ received id true db
  -- the link accepts that many bytes less
  pub counted : remaining s.id true db' ≡ less size (remaining s.id true db)

record_transfer_cases :
    (s : Session) (name : GoString) (size now : ℕ) (tx : TxReplies) (db db' : Db)
    (r : Result StoreError Unit)
    → record_transfer s name size now tx db ≡ (db', r)
    → ((r ≡ ok tt)
        × (db'.sessions ≡ update (has_id s.id) (add_bytes size) db.sessions)
        × (db'.activity ≡ db.activity ++ log_entry s name size now db.next_seq ∷ []))
      ⊎ ((r ≡ err db_error) × (db' ≡ db))
unfolding record_transfer
record_transfer_cases s name size now tx db db' r e =
    elim (Bool-cases (tx.begin_ok && (tx.update_ok && (tx.insert_ok && tx.commit_ok)))) [
      | inl done ↦ inl (ground arith)
      | inr failed ↦ inr (ground arith)
    ]

-- `Record` does all or nothing. On success the transfer is listed last among those of its link, the
-- lists of other links stay, and its size is taken off what the link still accepts. On failure the
-- database is unchanged.
pub record_transfer_lem :
    (s : Session) (name : GoString) (size now : ℕ) (tx : TxReplies) (db db' : Db)
    (r : Result StoreError Unit)
    → record_transfer s name size now tx db ≡ (db', r)
    → ((r ≡ ok tt) × IsRecorded s name size now db db') ⊎ ((r ≡ err db_error) × (db' ≡ db))
record_transfer_lem s name size now tx db db' r e =
    elim (record_transfer_cases s name size now tx db db' r e) [
      | inl (done, rows, log) ↦ inl (
        done,
        record {
          listed =
              received-append s.id (log_entry s name size now db.next_seq) db db' log
              ∙ rw str_eq_refl (unfold to_item in refl);
          others = λ id other.
              received-append id (log_entry s name size now db.next_seq) db db' log
              ∙ ground
                  (arith, other, str_eq_iff s.id id, received_lem id db, append-nil (items id db));
          counted = remaining-add_bytes s.id size db db' rows;
        },
      )
      | inr failed ↦ inr failed
    ]

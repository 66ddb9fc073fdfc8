-- ===== src/Transfer/Store/Retention.antt =====
-- internal/transfer/store.go: `Prune` forgets old links, and `Release` undoes `Reserve`.
use omarchy_vault.Prelude.{
  ℕ, ◌≤◌, ◌≡◌, refl, GoString, Bool, true, Bool-cases, inl, inr, List, [], ◌∷◌, length, filter,
  find?-filter, ok, arith,
}
use omarchy_vault.Transfer.Session.{Kind, Session, active}
use omarchy_vault.Transfer.Tables.{Row, Db, scan, has_id, update}
use omarchy_vault.Transfer.Store
use omarchy_vault.Transfer.Store.{
  usable, lookup, has_token, recent_enough, can_reserve, use_once, give_back,
}
use omarchy_vault.Transfer.Store.Usable.{InRange, lookup-eq-usable_iff}
use omarchy_vault.Transfer.Store.RowInvariants.{sessions-prune}
use omarchy_vault.Transfer.Store.Uses.{copies}

active-recent_enough : (r : Row) (now : ℕ) → active (scan r) now ≡ true → recent_enough now r ≡ true
unfolding active scan
active-recent_enough r now h = ground arith

-- A link that can be used survives `Prune` unchanged, also if the second statement fails.
pub lookup-prune :
    (sha256 : GoString → GoString) (token : GoString) (kind : Kind) (now : ℕ) (up₂ : Bool) (db : Db)
    (s : Session)
    → InRange token
    → lookup sha256 token kind now true db ≡ usable s
    → lookup sha256 token kind now true (Store.prune now true up₂ db).0 ≡ usable s
lookup-prune sha256 token kind now up₂ db s fits found =
    let (r, first, same, live) = (lookup-eq-usable_iff sha256 token kind now db s fits).0 found in
    let kept : recent_enough now r ≡ true = active-recent_enough r now (rw same live) in
    (lookup-eq-usable_iff sha256 token kind now _ s fits).1 (
      r,
      rw (sessions-prune now up₂ db)
          (find?-filter (has_token sha256 token kind) (recent_enough now) db.sessions r first kept),
      same,
      live,
    )

give_back_none :
    (id : GoString) (f : Row → Row) (rows : List Row)
    → length (filter (has_id id) rows) ≡ 0
    → update (has_id id) f rows ≡ rows
give_back_none id f [] h = refl
give_back_none id f (r ∷ rows) h = ground (arith, give_back_none id f rows)

use_none :
    (id : GoString) (rows : List Row)
    → length (filter (has_id id) rows) ≡ 0
    → update (can_reserve id) use_once rows ≡ rows
use_none id [] h = refl
use_none id (r ∷ rows) h = ground (arith, use_none id rows)

count_reservable :
    (id : GoString) (rows : List Row)
    → length (filter (can_reserve id) rows) ≤ length (filter (has_id id) rows)
count_reservable id [] = omega arith
count_reservable id (r ∷ rows) = ground (arith, count_reservable id rows)

give_back-use_once :
    (id : GoString) (rows : List Row)
    → length (filter (has_id id) rows) ≤ 1
    → length (filter (can_reserve id) rows) ≡ 1
    → update (has_id id) give_back (update (can_reserve id) use_once rows) ≡ rows
give_back-use_once id [] one some' = refl
give_back-use_once id (r ∷ rows) one some' = elim (Bool-cases (has_id id r)) [
  | inl here ↦
      let alone : length (filter (has_id id) rows) ≡ 0 = ground arith in
      rw (use_none id rows alone, give_back_none id give_back rows alone)
        (ground (arith, count_reservable id rows))
  | inr other ↦ ground (arith, give_back-use_once id rows)
]

-- `Release` after a successful `Reserve` restores the database, where one row at most has the id.
pub release-reserve :
    (id : GoString) (db db' : Db)
    → copies id db ≤ 1
    → Store.reserve id true db ≡ (db', ok tt)
    → Store.release id true db' ≡ db
unfolding Store.reserve Store.release copies
release-reserve id db db' one e =
    let restored = give_back-use_once id db.sessions one in
    let few = count_reservable id db.sessions in ground (arith, restored)

-- ===== src/Transfer/Store/Revocation.antt =====
-- internal/transfer/store.go: a stopped link stays stopped.
use omarchy_vault.Prelude.{
  ℕ, ◌≡◌, ◌≢◌, refl, ap, GoString, str_eq, str_eq_iff, Bool, true, false, List, [], ◌∷◌, length,
  filter, All, All-In, In-of_find?, arith,
}
use omarchy_vault.Transfer.Session.{Kind, Session, active}
use omarchy_vault.Transfer.Tables.{Row, Db, is_some, scan, update}
use omarchy_vault.Transfer.Store
use omarchy_vault.Transfer.Store.{usable, lookup, has_token, can_revoke, can_reserve, stop}
use omarchy_vault.Transfer.Store.Usable.{InRange, lookup-eq-usable_iff}
use omarchy_vault.Transfer.Store.Runs.{Op, run, is_ok, DrawsOther}
use omarchy_vault.Transfer.Store.RowInvariants.{KeepsRows, run-All, sessions-revoke}

-- If the row has the id, it is stopped.
abbrev StoppedRow : GoString → Row → Type 0
StoppedRow id r = str_eq r.id id ≡ true → is_some r.revoked_at ≡ true

-- Every row with the id is stopped.
abbrev pub IsStopped : GoString → Db → Type 0
IsStopped id db = All (StoppedRow id) db.sessions

StoppedRow-rows :
    (sha256 : GoString → GoString) (id : GoString)
    → KeepsRows sha256 (DrawsOther id) (StoppedRow id)
unfolding Store.new_row
StoppedRow-rows sha256 id = record {
  at_create = λ n now id' token up other same. ground arith;
  at_revoke = λ r t q same. refl;
  at_reserve = λ r id' e q. q;
  at_release = λ r q. q;
  at_record = λ r size q. q;
}

stop-IsStopped :
    (id : GoString) (now : ℕ) (rows : List Row)
    → All (StoppedRow id) (update (can_revoke id) (stop now) rows)
unfolding can_revoke
stop-IsStopped id now [] = tt
stop-IsStopped id now (r ∷ rows) = (ground arith, stop-IsStopped id now rows)

-- `Revoke`, also where the link was stopped before or does not exist, leaves no row with the id that
-- is not stopped.
pub revoke-IsStopped :
    (id : GoString) (now : ℕ) (up₂ : Bool) (db : Db)
    → IsStopped id (Store.revoke id now true up₂ db).0
revoke-IsStopped id now up₂ db =
    rw (sessions-revoke id now up₂ db) (stop-IsStopped id now db.sessions)

no_reservable :
    (id : GoString) (rows : List Row)
    → All (StoppedRow id) rows
    → length (filter (can_reserve id) rows) ≡ 0
no_reservable id [] h = refl
no_reservable id (r ∷ rows) (q, h) = ground (arith, no_reservable id rows h, q)

module _ (sha256 : GoString → GoString) (id : GoString) (db : Db) where
  IsStopped-unusable :
      (token : GoString) (kind : Kind) (now : ℕ) (s : Session)
      → IsStopped id db
      → InRange token
      → lookup sha256 token kind now true db ≡ usable s
      → s.id ≢ id
  unfolding active scan
  IsStopped-unusable token kind now s stopped fits found same =
      let (r, first, e, live) = (lookup-eq-usable_iff sha256 token kind now db s fits).0 found in
      let (i, _) = In-of_find? _ r db.sessions first in
      let q : StoppedRow id r = All-In (StoppedRow id) r db.sessions stopped i in
      ground (
        arith,
        q,
        str_eq_iff r.id id,
        ap (λ (x : Session). x.id) e,
        ap (λ (x : Session). x.revoked) e,
      )

  IsStopped-no_reserve : (up : Bool) → IsStopped id db → is_ok (Store.reserve id up db).1 ≡ false
  unfolding Store.reserve
  IsStopped-no_reserve false stopped = refl
  IsStopped-no_reserve true stopped = ground (arith, no_reservable id db.sessions stopped)

-- After `Revoke` of a link, and any later calls that do not draw its id again, no token opens a
-- session with that id, and no upload or download of it can be reserved.
pub revoke_is_final :
    (sha256 : GoString → GoString) (id : GoString) (now later : ℕ) (up₂ up : Bool) (db : Db)
    (ops : List Op) (token : GoString) (kind : Kind)
    → All (DrawsOther id) ops
    → InRange token
    → ((s : Session)
        → lookup sha256 token kind later true (run sha256 ops (Store.revoke id now true up₂ db).0)
          ≡ usable s
        → s.id ≢ id)
      × (is_ok (Store.reserve id up (run sha256 ops (Store.revoke id now true up₂ db).0)).1 ≡ false)
revoke_is_final sha256 id now later up₂ up db ops token kind others fits =
    let stopped =
      run-All (StoppedRow-rows sha256 id) ops _ others (revoke-IsStopped id now up₂ db) in
    (
      λ s. IsStopped-unusable sha256 id _ token kind later s stopped fits,
      IsStopped-no_reserve sha256 id _ up stopped,
    )

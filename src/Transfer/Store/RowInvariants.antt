-- ===== src/Transfer/Store/RowInvariants.antt =====
-- internal/transfer/store.go: what one call does to each row, for invariants of the rows.
use omarchy_vault.Prelude.{
  ℕ, ◌+◌, ◌-◌, ◌≡◌, refl, GoString, Bool, true, false, none, some, List, [], ◌∷◌, All, All-append,
  All-filter, filter, arith, if◌then◌else◌,
}
use omarchy_vault.Transfer.Session.{Session}
use omarchy_vault.Transfer.Tables.{Row, Db, NewSession, has_id, update, unix_milli}
use omarchy_vault.Transfer.Store
use omarchy_vault.Transfer.Store.{
  can_revoke, can_reserve, new_row, stop, use_once, give_back, add_bytes, TxReplies, recent_enough,
}
use omarchy_vault.Transfer.Store.Runs.{
  Op, create, revoke, reserve, release, record_transfer, prune, step, run,
}

pub All-update :
    (P : Row → Type 0) (p : Row → Bool) (f : Row → Row) (rows : List Row)
    → ((r : Row) → p r ≡ true → P r → P (f r))
    → All P rows
    → All P (update p f rows)
All-update P p f [] keep h = tt
All-update P p f (r ∷ rows) keep (q, h) = (
  elim (p r) as (λ b. p r ≡ b → P (if b then f r else r)) [
    | true ↦ λ e. keep r e q
    | false ↦ λ _. q
  ]
      refl,
  All-update P p f rows keep h,
)

-- What an invariant of the rows must stand: a new row, where `Allowed` holds of the call, and what
-- the updates write.
pub record KeepsRows (sha256 : GoString → GoString) (Allowed : Op → Type 0) (P : Row → Type 0)
    : Type 0 where
  pub at_create :
      (n : NewSession) (now : ℕ) (id token : GoString) (up : Bool)
      → Allowed (create n now (some id) (some token) up)
      → P (new_row sha256 n now id token)
  pub at_revoke : (r : Row) (t : ℕ) → P r → P (record r { revoked_at = some t })
  pub at_reserve :
      (r : Row) (id : GoString)
      → can_reserve id r ≡ true
      → P r
      → P (record r { files = r.files + 1 })
  pub at_release : (r : Row) → P r → P (record r { files = r.files - 1 })
  pub at_record : (r : Row) (size : ℕ) → P r → P (record r { bytes = r.bytes + size })

pub sessions-revoke :
    (id : GoString) (now : ℕ) (up₂ : Bool) (db : Db)
    → (Store.revoke id now true up₂ db).0.sessions ≡ update (can_revoke id) (stop now) db.sessions
unfolding Store.revoke
sessions-revoke id now up₂ db = ground arith

pub sessions-reserve :
    (id : GoString) (db : Db)
    → (Store.reserve id true db).0.sessions ≡ update (can_reserve id) use_once db.sessions
unfolding Store.reserve
sessions-reserve id db = ground arith

pub sessions-prune :
    (now : ℕ) (up₂ : Bool) (db : Db)
    → (Store.prune now true up₂ db).0.sessions ≡ filter (recent_enough now) db.sessions
unfolding Store.prune
sessions-prune now true db = refl
sessions-prune now false db = refl

module _ {sha256 : GoString → GoString} {Allowed : Op → Type 0} {P : Row → Type 0}
    (keeps : KeepsRows sha256 Allowed P) where
  create-All :
      (n : NewSession) (now : ℕ) (id token : GoString) (up : Bool) (db : Db)
      → P (new_row sha256 n now id token)
      → All P db.sessions
      → All P (Store.create sha256 n now (some id) (some token) up db).0.sessions
  unfolding Store.create
  create-All n now id token up db q h =
      ground (arith, All-append P db.sessions (new_row sha256 n now id token ∷ []) h (q, tt))

  record-All :
      (s : Session) (name : GoString) (size now : ℕ) (tx : TxReplies) (db : Db)
      → All P db.sessions
      → All P (Store.record_transfer s name size now tx db).0.sessions
  unfolding Store.record_transfer
  record-All s name size now tx db h =
      let updated : All P (update (has_id s.id) (add_bytes size) db.sessions) =
        All-update P (has_id s.id) (add_bytes size) db.sessions (λ r _ q. keeps.at_record r size q)
          h in
      ground (arith, updated)

  pub step-All :
      (op : Op) (db : Db) → Allowed op → All P db.sessions → All P (step sha256 op db).sessions
  unfolding step
  step-All (create n now none token up) db ok h = unfold Store.create in h
  step-All (create n now (some id) none up) db ok h = unfold Store.create in h
  step-All (create n now (some id) (some token) up) db ok h =
      create-All n now id token up db (keeps.at_create n now id token up ok) h
  step-All (revoke id now false up₂) db ok h = unfold Store.revoke in h
  step-All (revoke id now true up₂) db ok h =
      rw (sessions-revoke id now up₂ db) (
        All-update P (can_revoke id) _ db.sessions (λ r _ q. keeps.at_revoke r (unix_milli now) q)
          h)
  step-All (reserve id false) db ok h = unfold Store.reserve in h
  step-All (reserve id true) db ok h =
      rw (sessions-reserve id db)
        (All-update P (can_reserve id) _ db.sessions (λ r e q. keeps.at_reserve r id e q) h)
  step-All (release id false) db ok h = unfold Store.release in h
  step-All (release id true) db ok h =
      unfold Store.release in
      All-update P (has_id id) give_back db.sessions (λ r _ q. keeps.at_release r q) h
  step-All (record_transfer s name size now tx) db ok h = record-All s name size now tx db h
  step-All (prune now false up₂) db ok h = unfold Store.prune in h
  step-All (prune now true up₂) db ok h =
      rw (sessions-prune now up₂ db) (All-filter P _ db.sessions h)

  pub run-All :
      (ops : List Op) (db : Db)
      → All Allowed ops
      → All P db.sessions
      → All P (run sha256 ops db).sessions
  unfolding run
  run-All [] db ok h = h
  run-All (op ∷ ops) db (ok, oks) h = run-All ops (step sha256 op db) oks (step-All op db ok h)

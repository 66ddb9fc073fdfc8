-- ===== src/Transfer/Store/Runs.antt =====
-- internal/transfer/store.go: sequences of calls that change the database, in any order and with any
-- failures. The store has one connection, so the statements of concurrent requests are serialised.
use omarchy_vault.Prelude.{
  ℕ, ◌+◌, ◌≡◌, GoString, str_eq, Bool, true, false, Option, some, List, [], ◌∷◌, Result, ok, err,
  if◌then◌else◌,
}
use omarchy_vault.Transfer.Session.{Session}
use omarchy_vault.Transfer.Tables.{Db, NewSession}
use omarchy_vault.Transfer.Store
use omarchy_vault.Transfer.Store.{TxReplies}

-- A call of `Create`, `Revoke`, `Reserve`, `Release`, `Record` or `Prune` with what its environment
-- answers.
pub data Op : Type 0 where
  create : NewSession → ℕ → Option GoString → Option GoString → Bool → Op
  revoke : GoString → ℕ → Bool → Bool → Op
  reserve release : GoString → Bool → Op
  record_transfer : Session → GoString → ℕ → ℕ → TxReplies → Op
  prune : ℕ → Bool → Bool → Op

abbrev pub is_ok {ℓ} : {E A : Type ℓ} → Result E A → Bool
is_ok (ok _) = true
is_ok (err _) = false

module _ (sha256 : GoString → GoString) where
  unfoldable pub step : Op → Db → Db
  step (create n now id token up) db = (Store.create sha256 n now id token up db).0
  step (revoke id now up up₂) db = (Store.revoke id now up up₂ db).0
  step (reserve id up) db = (Store.reserve id up db).0
  step (release id up) db = Store.release id up db
  step (record_transfer s name size now tx) db = (Store.record_transfer s name size now tx db).0
  step (prune now up up₂) db = (Store.prune now up up₂ db).0

  unfoldable pub run : List Op → Db → Db
  run [] db = db
  run (op ∷ ops) db = run ops (step op db)

  -- whether the call is a `Reserve` of the link that succeeds
  unfoldable pub grants : GoString → Op → Db → Bool
  grants id (reserve id' up) db = if str_eq id' id then is_ok (Store.reserve id' up db).1 else false
  grants id _ db = false

  unfoldable pub count_grants : GoString → List Op → Db → ℕ
  count_grants id [] db = 0
  count_grants id (op ∷ ops) db =
      (if grants id op db then 1 else 0) + count_grants id ops (step op db)

-- whether the call is a `Release` of the link
unfoldable pub releases : GoString → Op → Bool
releases id (release id' up) = str_eq id' id
releases id _ = false

unfoldable pub count_releases : GoString → List Op → ℕ
count_releases id [] = 0
count_releases id (op ∷ ops) = (if releases id op then 1 else 0) + count_releases id ops

-- The random source draws another id than this one. (Ids have 96 random bits.)
abbrev pub DrawsOther : GoString → Op → Type 0
DrawsOther id (create n now (some id') token up) = str_eq id' id ≡ false
DrawsOther id _ = Unit

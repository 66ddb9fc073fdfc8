-- ===== src/Transfer/Store/Limits.antt =====
-- internal/transfer/store.go: no link is used more often than it may be.
use omarchy_vault.Prelude.{◌≤◌, GoString, List, All, All-pure, arith}
use omarchy_vault.Transfer.Tables.{Row, Db}
use omarchy_vault.Transfer.Store
use omarchy_vault.Transfer.Store.Runs.{Op, run}
use omarchy_vault.Transfer.Store.RowInvariants.{KeepsRows, run-All}

abbrev KeepsLimit : Row → Type 0
KeepsLimit r = r.files ≤ r.max_files

-- No link has been used more often than it may be.
abbrev pub WithinLimits : Db → Type 0
WithinLimits db = All KeepsLimit db.sessions

KeepsLimit-rows : (sha256 : GoString → GoString) → KeepsRows sha256 (λ _. Unit {0}) KeepsLimit
unfolding Store.new_row
KeepsLimit-rows sha256 = record {
  at_create = λ n now id token up _. omega arith;
  at_revoke = λ r t q. q;
  at_reserve = λ r id e q. ground arith;
  at_release = λ r q. omega arith;
  at_record = λ r size q. q;
}

-- Whatever calls are made, in whatever order and with whatever failures, no link is used more often
-- than `max_files` allows.
pub run-WithinLimits :
    (sha256 : GoString → GoString) (ops : List Op) (db : Db)
    → WithinLimits db
    → WithinLimits (run sha256 ops db)
run-WithinLimits sha256 ops db h =
    run-All (KeepsLimit-rows sha256) ops db (All-pure (λ _. Unit {0}) (λ op. tt) ops) h

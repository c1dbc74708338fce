-- ===== src/Ledger/History.antt =====
-- Every history of calls: whatever each one's first look-up saw, the tables stay consistent and the
-- balances add up to what came in less what went out.
use dayfi_backend.Base.{ℕ, ◌+◌, ◌≡◌, refl, arith, List, [], inl, inr, if◌then◌else◌}
use dayfi_backend.Ledger.Types.{LedgerWriteParams, LedgerMovement, Result, ok, err}
use dayfi_backend.Ledger.Store.{Db, find_wallet}
use dayfi_backend.Ledger.Write.{WriteOp, Posted, ledger_write}
use dayfi_backend.Ledger.Transfer.{TransferParams, TransferResult, transfer_available_balance}
use dayfi_backend.Ledger.Store.Rows.{total}
use dayfi_backend.Ledger.Store.Ensure.{wallet_at}
use dayfi_backend.Ledger.Store.Audit.{IsValid, latest}
use dayfi_backend.Ledger.Write.Conservation.{
  inflow, outflow, Moves, ledger_write-Moves, ledger_write-IsValid,
}
use dayfi_backend.Ledger.Transfer.Effect.{Transfers, transfer-Transfers, transfer-IsValid}

abbrev pub empty_db : Db
empty_db = record { wallets = []; movements = [] }

-- What a call has brought in or paid out; a duplicate or an error moves nothing.
abbrev pub moved : (ℕ → ℕ) → Result Posted → ℕ
moved flow (err e) = 0
moved flow (ok r) = if r.duplicate then 0 else flow r.movement.amount

-- The tables that calls can reach, with all that has been brought in and paid out.
pub data Reach : ℕ → ℕ → Db → Type 0 where
  start : Reach 0 0 empty_db
  write :
      {i o : ℕ} {db : Db} (op : WriteOp) (p : LedgerWriteParams) (seen : List LedgerMovement)
      → Reach i o db
      → Reach
          (i + moved (inflow op) (ledger_write op p seen db).0)
          (o + moved (outflow op) (ledger_write op p seen db).0)
          (ledger_write op p seen db).1
  transfer :
      {i o : ℕ} {db : Db} (p : TransferParams) (seen : List LedgerMovement)
      → Reach i o db
      → Reach i o (transfer_available_balance p seen db).1

Moves-moved :
    (op : WriteOp) (p : LedgerWriteParams) (db : Db) (out : Result Posted × Db)
    → Moves op p db out
    → total out.1.wallets + moved (outflow op) out.0 ≡ total db.wallets + moved (inflow op) out.0
Moves-moved op p db (err e, db') same = ground arith
Moves-moved op p db (ok r, db') (inl (again, same)) = ground arith
Moves-moved op p db (ok r, db') (inr done) = ground (arith, done.new, done.sums)

Transfers-total :
    (p : TransferParams) (db : Db) (out : Result TransferResult × Db)
    → Transfers p db out
    → total out.1.wallets ≡ total db.wallets
Transfers-total p db (err e, db') same = ground arith
Transfers-total p db (ok r, db') (inl (again, same)) = ground arith
Transfers-total p db (ok r, db') (inr moves) = moves.1

moved-total :
    (op : WriteOp) (p : LedgerWriteParams) (seen : List LedgerMovement) (db : Db)
    → total (ledger_write op p seen db).1.wallets + moved (outflow op) (ledger_write op p seen db).0
      ≡ total db.wallets + moved (inflow op) (ledger_write op p seen db).0
moved-total op p seen db =
    Moves-moved op p db (ledger_write op p seen db) (ledger_write-Moves op p seen db)

empty_db-IsValid : IsValid empty_db
unfolding latest wallet_at find_wallet
empty_db-IsValid = record { distinct_ids = tt; distinct_keys = tt; audited = λ id. refl }

-- In all tables that calls can reach, in any order and whatever their look-ups saw, no key stands
-- twice, each wallet shows what its newest movement recorded, and all balances together are what has
-- been brought in less what has been paid out: no money is made or lost.
pub Reach-sound : {i o : ℕ} {db : Db} → Reach i o db → IsValid db × (total db.wallets + o ≡ i)
Reach-sound start = (empty_db-IsValid, omega arith)
Reach-sound (write {i} {o} {db} op p seen h) =
    let (valid, sums) = Reach-sound h in
    (ledger_write-IsValid op p seen db valid, omega (arith, moved-total op p seen db))
Reach-sound (transfer {i} {o} {db} p seen h) =
    let (valid, sums) = Reach-sound h in
    (
      transfer-IsValid p seen db valid,
      omega (
        arith,
        Transfers-total p db (transfer_available_balance p seen db) (transfer-Transfers p seen db),
      ),
    )

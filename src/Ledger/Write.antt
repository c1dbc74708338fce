-- ===== src/Ledger/Write.antt =====
-- The seven operations of infraLedgerService.ts that post one movement. The first query of a
-- transaction may run before a rival transaction commits: `seen` is the movements that it reads, and
-- the tables that the rest of the transaction works on may hold more.
pub mod Posting
pub mod Outcome
pub mod Conservation
pub mod Idempotency
pub mod Race
pub mod Reserve
use dayfi_backend.Base.{
  ℕ, ◌+◌, ◌-◌, String, Bool, true, false, none, some, List, ltb, not, if◌then◌else◌, trim, is_empty,
  or_else, or_null,
}
use dayfi_backend.Ledger.Types.{
  Direction, credit, debit, Balances, WalletAccount, LedgerMovement, LedgerWriteParams,
  idempotency_required, wallet_inactive, insufficient_balance, insufficient_pending,
  insufficient_locked, unique_violation, Result, ok, err, throw_if, parse_amount, is_active,
}
use dayfi_backend.Ledger.Store.{
  Db, Tx, ◌>>=◌, lift, tx, find_movement, wallet_id, ensure_wallet_account, lock_wallet_row,
  update_balances, insert_movement,
}

pub data WriteOp : Type 0 where
  credit_org credit_pending release_pending debit_org lock_funds release_funds finalize_debit :
      WriteOp

-- A movement as a call returns it, with its `duplicate` flag.
pub record Posted : Type 0 where
  pub movement : LedgerMovement
  pub duplicate : Bool

abbrev pub replayed : LedgerMovement → Posted
replayed m = record { movement = m; duplicate = true }

abbrev pub posted : LedgerMovement → Posted
posted m = record { movement = m; duplicate = false }

unfoldable pub direction_of : WriteOp → Direction
direction_of credit_org = credit
direction_of credit_pending = credit
direction_of release_pending = credit
direction_of debit_org = debit
direction_of lock_funds = debit
direction_of release_funds = credit
direction_of finalize_debit = debit

unfoldable pub default_type : WriteOp → String
default_type credit_org = "adjustment"
default_type credit_pending = "collection_pending"
default_type release_pending = "collection_credit"
default_type debit_org = "adjustment"
default_type lock_funds = "funds_lock"
default_type release_funds = "funds_release"
default_type finalize_debit = "payout_settle"

unfoldable pub credit_after : ℕ → Balances → Result Balances
credit_after amount b = ok (record b { available = b.available + amount })

unfoldable pub credit_pending_after : ℕ → Balances → Result Balances
credit_pending_after amount b = ok (record b { pending = b.pending + amount })

unfoldable pub release_pending_after : ℕ → Balances → Result Balances
release_pending_after amount b =
    if ltb b.pending amount
    then err insufficient_pending
    else ok (record b { available = b.available + amount; pending = b.pending - amount })

unfoldable pub debit_after : ℕ → Balances → Result Balances
debit_after amount b =
    if ltb b.available amount
    then err insufficient_balance
    else ok (record b { available = b.available - amount })

unfoldable pub lock_after : ℕ → Balances → Result Balances
lock_after amount b =
    if ltb b.available amount
    then err insufficient_balance
    else ok (record b { available = b.available - amount; locked = b.locked + amount })

unfoldable pub release_after : ℕ → Balances → Result Balances
release_after amount b =
    if ltb b.locked amount
    then err insufficient_locked
    else ok (record b { available = b.available + amount; locked = b.locked - amount })

unfoldable pub finalize_after : ℕ → Balances → Result Balances
finalize_after amount b =
    if ltb b.locked amount
    then err insufficient_locked
    else ok (record b { locked = b.locked - amount })

unfoldable pub after_of : WriteOp → ℕ → Balances → Result Balances
after_of credit_org = credit_after
after_of credit_pending = credit_pending_after
after_of release_pending = release_pending_after
after_of debit_org = debit_after
after_of lock_funds = lock_after
after_of release_funds = release_after
after_of finalize_debit = finalize_after

abbrev pub movement_of :
    WriteOp → LedgerWriteParams → ℕ → String → WalletAccount → Balances → LedgerMovement
movement_of op p amount key row after = record {
  wallet_id = row.id;
  direction = direction_of op;
  amount = amount;
  movement_type = or_else p.movement_type (default_type op);
  reference = or_null (some (or_else p.reference (or_else p.reference_id "")));
  reference_type = or_null p.reference_type;
  reference_id = or_null p.reference_id;
  idempotency_key = key;
  after = after;
}

-- The transaction once no movement of the key has been seen.
unfoldable pub post_movement : WriteOp → LedgerWriteParams → ℕ → String → Tx Posted
post_movement op p amount key = do
  wallet ← ensure_wallet_account (wallet_id p.org_id p.environment p.asset)
  ok_status ← lift (throw_if (not (is_active wallet.status)) wallet_inactive)
  row ← lock_wallet_row wallet.id
  after ← lift (after_of op amount row.balances)
  written ← update_balances row.id after
  movement ← insert_movement (movement_of op p amount key row after)
  lift (ok (posted movement))

unfoldable pub write_body :
    WriteOp → LedgerWriteParams → ℕ → String → List LedgerMovement → Tx Posted
write_body op p amount key seen db = elim (find_movement key seen) [
  | some existing ↦ ok (replayed existing, db)
  | none ↦ post_movement op p amount key db
]

-- The `catch` block: a movement that a rival has committed under the key is the answer.
unfoldable pub recover : String → Result Posted × Db → Result Posted × Db
recover key (err unique_violation, db) = elim (find_movement key db.movements) [
  | some existing ↦ (ok (replayed existing), db)
  | none ↦ (err unique_violation, db)
]
recover key (r, db) = (r, db)

unfoldable pub ledger_write :
    WriteOp → LedgerWriteParams → List LedgerMovement → Db → Result Posted × Db
ledger_write op p seen db = elim (parse_amount p.amount) [
  | err e ↦ (err e, db)
  | ok amount ↦
      let key = trim p.idempotency_key in
      if is_empty key
      then (err idempotency_required, db)
      else recover key (tx (write_body op p amount key seen) db)
]

unfoldable pub credit_org_wallet : LedgerWriteParams → List LedgerMovement → Db → Result Posted × Db
credit_org_wallet = ledger_write credit_org

unfoldable pub credit_org_wallet_pending :
    LedgerWriteParams → List LedgerMovement → Db → Result Posted × Db
credit_org_wallet_pending = ledger_write credit_pending

unfoldable pub release_pending_to_available :
    LedgerWriteParams → List LedgerMovement → Db → Result Posted × Db
release_pending_to_available = ledger_write release_pending

unfoldable pub debit_org_wallet : LedgerWriteParams → List LedgerMovement → Db → Result Posted × Db
debit_org_wallet = ledger_write debit_org

unfoldable pub lock_org_funds : LedgerWriteParams → List LedgerMovement → Db → Result Posted × Db
lock_org_funds = ledger_write lock_funds

unfoldable pub release_org_funds : LedgerWriteParams → List LedgerMovement → Db → Result Posted × Db
release_org_funds = ledger_write release_funds

unfoldable pub finalize_locked_debit :
    LedgerWriteParams → List LedgerMovement → Db → Result Posted × Db
finalize_locked_debit = ledger_write finalize_debit

-- ===== src/Ledger/Transfer.antt =====
-- `transferAvailableBalance` of infraLedgerService.ts: a debit and a credit in one transaction.
pub mod Legs
pub mod Outcome
pub mod Effect
pub mod Race
use dayfi_backend.Base.{
  ℕ, ◌+◌, ◌-◌, String, Bool, true, false, ◌||◌, Option, none, some, List, ltb, not, str_eq, trim,
  is_empty,
}
use dayfi_backend.Ledger.Types.{
  Direction, credit, debit, Balances, WalletAccount, LedgerMovement, JsNumber, idempotency_required,
  wallet_inactive, recipient_inactive, self_transfer, cross_environment, transfer_inconsistent,
  insufficient_balance, Result, ok, err, throw_if, parse_amount, is_active, same_env,
}
use dayfi_backend.Ledger.Store.{
  Db, Tx, ◌>>=◌, lift, tx, find_movement, wallet_id, ensure_wallet_account, lock_wallet_row,
  update_balances, insert_movement,
}

pub record TransferParams : Type 0 where
  pub sender_org_id : String
  pub recipient_org_id : String
  pub environment : String
  pub amount : JsNumber
  pub asset : Option String
  pub transfer_group_id : String
  pub debit_idempotency_key : String
  pub credit_idempotency_key : String
  pub sender_reference_id : String
  pub recipient_reference_id : String

pub record TransferResult : Type 0 where
  pub debit_movement : LedgerMovement
  pub credit_movement : LedgerMovement
  pub duplicate : Bool

-- One leg of a transfer, as it is inserted.
abbrev pub transfer_leg :
    TransferParams
    → Direction
    → String
    → String
    → String
    → ℕ
    → WalletAccount
    → Balances
    → LedgerMovement
transfer_leg p direction movement_type reference_id key amount row after = record {
  wallet_id = row.id;
  direction = direction;
  amount = amount;
  movement_type = movement_type;
  reference = some p.transfer_group_id;
  reference_type = some "internal_transfer";
  reference_id = some reference_id;
  idempotency_key = key;
  after = after;
}

-- The two legs, once both wallets are locked.
unfoldable pub move_available :
    TransferParams → ℕ → String → String → WalletAccount → WalletAccount → Tx TransferResult
move_available p amount debit_key credit_key sender recipient = do
  ok_funds ← lift (throw_if (ltb sender.balances.available amount) insufficient_balance)
  let sender_after = record sender.balances { available = sender.balances.available - amount }
  let recipient_after = record recipient.balances {
    available = recipient.balances.available + amount;
  }
  taken ← update_balances sender.id sender_after
  given ← update_balances recipient.id recipient_after
  debit_leg ← insert_movement (
      transfer_leg p debit "internal_transfer_debit" p.sender_reference_id debit_key amount sender
        sender_after)
  credit_leg ← insert_movement (
      transfer_leg p credit "internal_transfer_credit" p.recipient_reference_id credit_key amount
        recipient recipient_after)
  lift (ok (record { debit_movement = debit_leg; credit_movement = credit_leg; duplicate = false }))

-- The transaction once neither leg has been seen.
unfoldable pub post_transfer : TransferParams → ℕ → String → String → Tx TransferResult
post_transfer p amount debit_key credit_key = do
  sender_wallet ← ensure_wallet_account (wallet_id p.sender_org_id p.environment p.asset)
  recipient_wallet ← ensure_wallet_account (wallet_id p.recipient_org_id p.environment p.asset)
  one_env ← lift (
      throw_if (not (same_env sender_wallet.id.environment recipient_wallet.id.environment))
        cross_environment)
  sender_ok ← lift (throw_if (not (is_active sender_wallet.status)) wallet_inactive)
  recipient_ok ← lift (throw_if (not (is_active recipient_wallet.status)) recipient_inactive)
  sender ← lock_wallet_row sender_wallet.id
  recipient ← lock_wallet_row recipient_wallet.id
  sender_row_ok ← lift (throw_if (not (is_active sender.status)) wallet_inactive)
  recipient_row_ok ← lift (throw_if (not (is_active recipient.status)) recipient_inactive)
  move_available p amount debit_key credit_key sender recipient

-- What the two idempotency look-ups lead to.
unfoldable pub transfer_seen :
    Option LedgerMovement → Option LedgerMovement → Tx TransferResult → Tx TransferResult
transfer_seen (some d) (some c) next =
    lift (ok (record { debit_movement = d; credit_movement = c; duplicate = true }))
transfer_seen (some d) none next = lift (err transfer_inconsistent)
transfer_seen none (some c) next = lift (err transfer_inconsistent)
transfer_seen none none next = next

-- `run`, inside the transaction; `seen` is what its look-ups read.
unfoldable pub transfer_run : TransferParams → List LedgerMovement → Tx TransferResult
transfer_run p seen = do
  amount ← lift (parse_amount p.amount)
  let debit_key = trim p.debit_idempotency_key
  let credit_key = trim p.credit_idempotency_key
  keys_ok ← lift (throw_if (is_empty debit_key || is_empty credit_key) idempotency_required)
  orgs_ok ← lift (throw_if (str_eq p.sender_org_id p.recipient_org_id) self_transfer)
  transfer_seen (find_movement debit_key seen) (find_movement credit_key seen)
      (post_transfer p amount debit_key credit_key)

-- `return run(t)` and `return db.tx(run)` hand the promise on without `await`, so the `catch` block
-- below them never sees a rejection: an error of the transaction is the caller's.
unfoldable pub transfer_available_balance :
    TransferParams → List LedgerMovement → Db → Result TransferResult × Db
transfer_available_balance p seen db = tx (transfer_run p seen) db

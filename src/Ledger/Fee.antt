-- ===== src/Ledger/Fee.antt =====
-- `applyDayfiTransactionFee` of infraLedgerService.ts, which runs inside the caller's transaction.
pub mod Legs
pub mod Totals
pub mod Apply
use dayfi_backend.Base.{
  ℕ, ◌+◌, ◌-◌, String, true, false, ◌||◌, Option, none, some, List, ltb, ◌==◌, not, if◌then◌else◌,
  trim, is_empty,
}
use Prim.Native.String
use dayfi_backend.Ledger.Types.{
  Direction, credit, debit, Balances, WalletAccount, LedgerMovement, JsNumber, idempotency_required,
  wallet_inactive, insufficient_balance, ok, err, throw_if, parse_amount, is_active,
}
use dayfi_backend.Ledger.Store.{
  Tx, ◌>>=◌, lift, find_movement, wallet_id, ensure_wallet_account, lock_wallet_row,
  update_balances, insert_movement,
}
use dayfi_backend.Ledger.Transfer.{TransferResult}

pub record FeeParams : Type 0 where
  pub payer_org_id : String
  pub revenue_org_id : String
  pub environment : String
  pub amount : JsNumber
  pub transfer_group_id : String
  pub payer_reference_id : String
  pub revenue_reference_id : String
  pub debit_idempotency_key : String
  pub credit_idempotency_key : String

abbrev pub fee_leg :
    FeeParams → Direction → String → String → String → ℕ → WalletAccount → Balances → LedgerMovement
fee_leg p direction movement_type reference_id key amount row after = record {
  wallet_id = row.id;
  direction = direction;
  amount = amount;
  movement_type = movement_type;
  reference = some (String.◌++◌ "fee:" p.transfer_group_id);
  reference_type = some "transaction_fee";
  reference_id = some reference_id;
  idempotency_key = key;
  after = after;
}

-- The two legs, once both rows are locked. Each new balance comes from the row as it was locked.
unfoldable pub move_fee :
    FeeParams → ℕ → String → String → WalletAccount → WalletAccount → Tx (Option TransferResult)
move_fee p amount debit_key credit_key payer revenue = do
  ok_funds ← lift (throw_if (ltb payer.balances.available amount) insufficient_balance)
  let payer_after = record payer.balances { available = payer.balances.available - amount }
  let revenue_after = record revenue.balances { available = revenue.balances.available + amount }
  taken ← update_balances payer.id payer_after
  given ← update_balances revenue.id revenue_after
  debit_leg ←
      insert_movement
        (fee_leg p debit "fee_debit" p.payer_reference_id debit_key amount payer payer_after)
  credit_leg ← insert_movement (
      fee_leg p credit "fee_revenue" p.revenue_reference_id credit_key amount revenue revenue_after)
  lift (
      ok (
        some
          (record { debit_movement = debit_leg; credit_movement = credit_leg; duplicate = false })))

unfoldable pub post_fee : FeeParams → ℕ → String → String → Tx (Option TransferResult)
post_fee p amount debit_key credit_key = do
  payer_wallet ← ensure_wallet_account (wallet_id p.payer_org_id p.environment none)
  revenue_wallet ← ensure_wallet_account (wallet_id p.revenue_org_id p.environment none)
  payer_ok ← lift (throw_if (not (is_active payer_wallet.status)) wallet_inactive)
  revenue_ok ← lift (throw_if (not (is_active revenue_wallet.status)) wallet_inactive)
  payer ← lock_wallet_row payer_wallet.id
  revenue ← lock_wallet_row revenue_wallet.id
  move_fee p amount debit_key credit_key payer revenue

-- Both legs seen: a duplicate. One leg alone is not told apart from none.
unfoldable pub fee_seen :
    Option LedgerMovement
    → Option LedgerMovement
    → Tx (Option TransferResult)
    → Tx (Option TransferResult)
fee_seen (some d) (some c) next =
    lift (ok (some (record { debit_movement = d; credit_movement = c; duplicate = true })))
fee_seen (some d) none next = next
fee_seen none other next = next

unfoldable pub apply_dayfi_transaction_fee :
    FeeParams → List LedgerMovement → Tx (Option TransferResult)
apply_dayfi_transaction_fee p seen db = elim (parse_amount p.amount) [
  | err e ↦ err e
  | ok amount ↦
      let debit_key = trim p.debit_idempotency_key in
      let credit_key = trim p.credit_idempotency_key in
      if amount == 0
      then ok (none, db)
      else (do
        keys_ok ← lift (throw_if (is_empty debit_key || is_empty credit_key) idempotency_required)
        fee_seen (find_movement debit_key seen) (find_movement credit_key seen)
            (post_fee p amount debit_key credit_key))
          db
]

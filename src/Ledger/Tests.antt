-- ===== src/Ledger/Tests.antt =====
-- Runs of infraLedgerService.ts on small tables, and the theorems at those inputs.
use dayfi_backend.Base.{ℕ, ◌≡◌, refl, inr, ◌⊎◌, [], none, trim, trim_start, trim_end}
use dayfi_backend.Base.Int.{pos}
use dayfi_backend.Ledger.Types.{
  LedgerWriteParams, LedgerError, credit, finite, Result, ok, err, parse_amount, normalize_env,
  normalize_asset, same_id,
}
use dayfi_backend.Ledger.Store.{
  Db, find_wallet, find_movement, set_balances, wallet_id, no_balances, ensure_wallet_account,
  lock_wallet_row, update_balances, insert_movement, has_event,
}
use dayfi_backend.Ledger.Write.{
  credit_org, lock_funds, Posted, replayed, after_of, credit_after, credit_pending_after,
  release_pending_after, debit_after, lock_after, release_after, finalize_after, default_type,
  direction_of, post_movement, write_body, recover, ledger_write, lock_org_funds, release_org_funds,
  finalize_locked_debit,
}
use dayfi_backend.Ledger.Transfer.{
  transfer_available_balance, transfer_run, transfer_seen, post_transfer, move_available,
}
use dayfi_backend.Ledger.Fee.{apply_dayfi_transaction_fee, fee_seen, post_fee, move_fee}
use dayfi_backend.Ledger.Store.Rows.{total}
use dayfi_backend.Ledger.Write.Conservation.{Moves, ledger_write-Moves}
use dayfi_backend.Ledger.Write.Idempotency.{ledger_write_once}
use dayfi_backend.Ledger.Write.Race.{ledger_write_race}
use dayfi_backend.Ledger.History.{empty_db}

-- 5 USDC for organization A.
abbrev pub five : LedgerWriteParams
five = record {
  org_id = "A";
  environment = "live";
  amount = finite (pos 500000000000000);
  asset = none;
  idempotency_key = " k1 ";
  movement_type = none;
  reference = none;
  reference_type = none;
  reference_id = none;
}

abbrev pub two : LedgerWriteParams
two = record five { amount = finite (pos 200000000000000); idempotency_key = "k2" }

abbrev pub funded : Result Posted × Db
funded = ledger_write credit_org five [] empty_db

-- Opens all that a run computes with.
unfoldable pub opened : ℕ
unfolding ledger_write parse_amount write_body post_movement ensure_wallet_account lock_wallet_row
    update_balances insert_movement find_movement find_wallet set_balances wallet_id normalize_env
    normalize_asset same_id after_of credit_after lock_after release_after finalize_after
    credit_pending_after release_pending_after debit_after recover has_event trim trim_start
    trim_end default_type direction_of lock_org_funds release_org_funds finalize_locked_debit
    transfer_available_balance transfer_run transfer_seen post_transfer move_available
    apply_dayfi_transaction_fee fee_seen post_fee move_fee
opened = 0

abbrev pub dummy : Posted
dummy = replayed (record {
  wallet_id = wallet_id "" "" none;
  direction = credit;
  amount = 0;
  movement_type = "";
  reference = none;
  reference_type = none;
  reference_id = none;
  idempotency_key = "";
  after = no_balances;
})

-- What a successful call answers.
abbrev answer : Result Posted → Posted
answer (ok r) = r
answer (err e) = dummy

funded_total : total funded.1.wallets ≡ 50000000
unfolding opened
funded_total = refl

-- The key is seen.
ledger_write_once_example :
    (ledger_write credit_org five funded.1.movements funded.1
      ≡ (ok (replayed (answer funded.0).movement), funded.1))
    ⊎ ((find_movement (trim five.idempotency_key) funded.1.movements ≡ none)
        × ((e : LedgerError) × (ledger_write credit_org five funded.1.movements funded.1
              ≡ (err e, funded.1))))
unfolding opened
ledger_write_once_example =
    ledger_write_once credit_org five funded.1.movements funded.1 50000000
      (answer funded.0).movement refl refl refl (inr refl)

ledger_write_race_example :
    ledger_write credit_org five [] funded.1 ≡ (ok (replayed (answer funded.0).movement), funded.1)
unfolding opened
ledger_write_race_example =
    ledger_write_race credit_org five [] [] empty_db (answer funded.0) funded.1
      (record { available = 100000000; pending = 0; locked = 0 }) refl refl refl refl

ledger_write-Moves_example : Moves lock_funds two funded.1 (ledger_write lock_funds two [] funded.1)
ledger_write-Moves_example = ledger_write-Moves lock_funds two [] funded.1

abbrev locked : Result Posted × Db
locked = lock_org_funds two [] funded.1

abbrev undo : LedgerWriteParams
undo = record two { idempotency_key = "k3" }

abbrev released : Result Posted × Db
released = release_org_funds undo [] locked.1

abbrev spent : Result Posted × Db
spent = finalize_locked_debit undo [] locked.1

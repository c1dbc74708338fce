-- ===== src/Ledger/TransferTests.antt =====
-- Runs of the transfers and the fee of infraLedgerService.ts, and the theorems at those inputs.
use dayfi_backend.Base.{
  ◌+◌, ◌≡◌, refl, arith, inl, ◌⊎◌, String, [], some, none, Option, eq_iff, true,
}
use dayfi_backend.Base.Int.{pos}
use dayfi_backend.Ledger.Types.{LedgerMovement, LedgerError, finite, Result, ok, err, no_row}
use dayfi_backend.Ledger.Store.{Db, find_movement, wallet_id}
use dayfi_backend.Ledger.Write.{credit_org}
use dayfi_backend.Ledger.Transfer.{TransferParams, TransferResult, transfer_available_balance}
use dayfi_backend.Ledger.Fee.{FeeParams, apply_dayfi_transaction_fee}
use dayfi_backend.Ledger.Store.Audit.{IsValid}
use dayfi_backend.Ledger.Store.Ensure.{wallet_at}
use dayfi_backend.Ledger.Store.Rows.{total}
use dayfi_backend.Ledger.Write.Conservation.{inflow, outflow}
use dayfi_backend.Ledger.Transfer.Race.{transfer_once, transfer_race}
use dayfi_backend.Ledger.Transfer.Effect.{shown, Transfers, transfer-Transfers}
use dayfi_backend.Ledger.Fee.Apply.{apply_fee_conserves, apply_fee_self_mints}
use dayfi_backend.Ledger.History.{empty_db, moved, start, write, transfer, Reach-sound}
use dayfi_backend.Ledger.Tests.{five, funded, opened, dummy}

abbrev transfer_answer : Result TransferResult → TransferResult
transfer_answer (ok r) = r
transfer_answer (err e) = record {
  debit_movement = dummy.movement;
  credit_movement = dummy.movement;
  duplicate = true;
}

-- 2 USDC from organization A to B.
abbrev gift : TransferParams
gift = record {
  sender_org_id = "A";
  recipient_org_id = "B";
  environment = "live";
  amount = finite (pos 200000000000000);
  asset = none;
  transfer_group_id = "g";
  debit_idempotency_key = "d";
  credit_idempotency_key = "c";
  sender_reference_id = "s";
  recipient_reference_id = "r";
}

gift_moves :
    ((shown (wallet_id "A" "live" none) (transfer_available_balance gift [] funded.1).1).available
      ≡ 30000000)
    × ((shown (wallet_id "B" "live" none) (transfer_available_balance gift [] funded.1).1).available
        ≡ 20000000)
unfolding opened wallet_at
gift_moves = (refl, refl)

transfer-Transfers_example : Transfers gift funded.1 (transfer_available_balance gift [] funded.1)
transfer-Transfers_example = transfer-Transfers gift [] funded.1

Reach-sound_example :
    IsValid (transfer_available_balance gift [] funded.1).1
    × (total (transfer_available_balance gift [] funded.1).1.wallets
          + (0 + moved (outflow credit_org) funded.0)
        ≡ 0 + moved (inflow credit_org) funded.0)
Reach-sound_example = Reach-sound (transfer gift [] (write credit_org five [] start))

-- A fee of 0.01 USDC.
abbrev fee_of : String → FeeParams
fee_of revenue = record {
  payer_org_id = "A";
  revenue_org_id = revenue;
  environment = "live";
  amount = finite (pos 1000000000000);
  transfer_group_id = "g";
  payer_reference_id = "s";
  revenue_reference_id = "f";
  debit_idempotency_key = "fd";
  credit_idempotency_key = "fc";
}

abbrev outcome : Result (Option TransferResult × Db) → Option TransferResult × Db
outcome (ok r) = r
outcome (err e) = (none, empty_db)

abbrev charged : Option TransferResult × Db
charged = outcome (apply_dayfi_transaction_fee (fee_of "fees") [] funded.1)

apply_fee_conserves_example : total charged.1.wallets ≡ total funded.1.wallets
unfolding opened
apply_fee_conserves_example =
    apply_fee_conserves (fee_of "fees") [] funded.1 charged.0 charged.1 refl
      (ground (arith, eq_iff "A" "fees"))

abbrev self_charged : Option TransferResult × Db
self_charged = outcome (apply_dayfi_transaction_fee (fee_of "A") [] funded.1)

abbrev legs : Option TransferResult → TransferResult
legs (some t) = t
legs none = transfer_answer (err no_row)

apply_fee_self_mints_example :
    total self_charged.1.wallets
    ≡ total funded.1.wallets + (legs self_charged.0).debit_movement.amount
unfolding opened
apply_fee_self_mints_example =
    apply_fee_self_mints (fee_of "A") [] funded.1 (legs self_charged.0) self_charged.1 refl refl
      refl

-- The transfer of `gift`.
abbrev given_once : Result TransferResult × Db
given_once = transfer_available_balance gift [] funded.1

transfer_once_example :
    ((e : LedgerError) × (transfer_available_balance gift given_once.1.movements given_once.1
        ≡ (err e, given_once.1)))
    ⊎ ((d : LedgerMovement) × (c : LedgerMovement) × (transfer_available_balance gift
            given_once.1.movements given_once.1
          ≡ (
            ok (record { debit_movement = d; credit_movement = c; duplicate = true }),
            given_once.1,
          ))
        × (find_movement "d" given_once.1.movements ≡ some d)
        × (find_movement "c" given_once.1.movements ≡ some c))
unfolding opened
transfer_once_example =
    transfer_once gift given_once.1.movements given_once.1
      (transfer_answer given_once.0).debit_movement (inl refl)

transfer_race_example :
    (e : LedgerError) × (transfer_available_balance gift [] given_once.1 ≡ (err e, given_once.1))
unfolding opened
transfer_race_example =
    transfer_race gift [] given_once.1 (transfer_answer given_once.0).debit_movement (inl refl) refl

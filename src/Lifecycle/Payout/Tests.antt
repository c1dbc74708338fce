-- ===== src/Lifecycle/Payout/Tests.antt =====
-- Runs of the payout calls of infraLifecycleService.ts, and the theorems at those inputs.
use text.Mathlib.Text.{starts_with}
use dayfi_backend.Base.{
  ◌≡◌, ◌≢◌, refl, arith, String, true, false, some, none, List, [], ◌∷◌, inl, trim, trim_start,
  trim_end,
}
use dayfi_backend.Base.Int.{pos}
use dayfi_backend.Ledger.Types.{
  LedgerWriteParams, finite, parse_amount, normalize_env, normalize_asset, same_id,
}
use dayfi_backend.Ledger.Store.{
  find_movement, find_wallet, set_balances, wallet_id, ensure_wallet_account, lock_wallet_row,
  update_balances, insert_movement, has_event,
}
use dayfi_backend.Ledger.Write.{
  credit_org, ledger_write, lock_org_funds, release_org_funds, finalize_locked_debit, post_movement,
  write_body, recover, after_of, credit_after, lock_after, release_after, finalize_after,
  default_type, direction_of,
}
use dayfi_backend.Ledger.Balance.{get_org_balance}
use dayfi_backend.Ledger.History.{empty_db}
use dayfi_backend.Lifecycle.Types.{
  TxRow, payout, Books, err, already_finalized, find_tx, update_txs, load_tx, patch_tx,
  write_ledger, read_balance, meta_usdc, resolve_usdc_amount,
}
use dayfi_backend.Lifecycle.Payout.{
  payout_key, lock_payout_funds, lock_row, finalize_payout_debit, finalize_row, release_payout_lock,
  release_row,
}
use dayfi_backend.Lifecycle.Payout.Exclusive.{Synced, write_other}
use dayfi_backend.Lifecycle.Payout.Phases.{Advances, phase_of, spent}
use dayfi_backend.Lifecycle.Payout.History.{
  Event, lock, finalize, write, after, books, after-Advances,
}

-- 2 USDC to be paid out for organization A.
abbrev pub row : TxRow
row = record {
  id = "p1";
  org_id = "A";
  environment = "live";
  amount = finite (pos 200000000000000);
  currency = "USDC";
  status = "pending";
  direction = payout;
  external_id = none;
  usdc_amount = none;
  ledger_amount = none;
  settlement_usdc = none;
  funds_finalized = false;
  funds_released = false;
  off_ramp = false;
  stellar_confirmed = false;
  rail = none;
  method = "crypto";
  has_lock_id = false;
  funds_locked = false;
}

abbrev pub start : Books
start = record { ledger = empty_db; txs = row ∷ [] }

abbrev pub five : LedgerWriteParams
five = record {
  org_id = "A";
  environment = "live";
  amount = finite (pos 500000000000000);
  asset = none;
  idempotency_key = "deposit";
  movement_type = none;
  reference = none;
  reference_type = none;
  reference_id = none;
}

-- Opens all that a run computes with.
unfoldable pub opened : String
unfolding ledger_write parse_amount write_body post_movement ensure_wallet_account lock_wallet_row
    update_balances insert_movement find_movement find_wallet set_balances wallet_id normalize_env
    normalize_asset same_id after_of credit_after lock_after release_after finalize_after recover
    has_event trim trim_start trim_end default_type direction_of lock_org_funds release_org_funds
    finalize_locked_debit get_org_balance find_tx update_txs load_tx patch_tx write_ledger
    read_balance meta_usdc resolve_usdc_amount payout_key lock_payout_funds lock_row
    finalize_payout_debit finalize_row release_payout_lock release_row write_other after books
    phase_of
opened = ""

pub deposit_is_other : starts_with (trim five.idempotency_key) "payout:" ≡ false
unfolding opened
deposit_is_other = refl

-- The deposit, and a lock.
abbrev pub reserved : List Event
reserved = lock "A" "p1" none none ∷ write credit_org five deposit_is_other ∷ []

abbrev pub settled : List Event
settled = finalize "p1" none ∷ reserved

settled_phase : phase_of "p1" (books settled start) ≡ some spent
unfolding opened
settled_phase = refl

late_release : (release_payout_lock "p1" none none (books settled start)).0 ≡ err already_finalized
unfolding opened
late_release = refl

pub start-Synced : Synced start
unfolding find_tx find_movement
start-Synced j r found = (inl refl, inl refl, ground arith)

-- The row after the lock.
abbrev pub locked_row : TxRow
locked_row = record row {
  usdc_amount = some (finite (pos 200000000000000));
  funds_locked = true;
  has_lock_id = true;
}

after-Advances_example :
    Advances
      (phase_of "p1" (books reserved start))
      (phase_of "p1" (after (finalize "p1" none) (books reserved start)))
after-Advances_example = after-Advances (finalize "p1" none) (books reserved start) "p1"

-- Another payout of 2 USDC of the same organization.
abbrev pub second : TxRow
second = record row { id = "p2" }

abbrev pub both_locked : Books
both_locked =
    (lock_payout_funds "A" "p2" none none
      (books reserved (record start { txs = row ∷ second ∷ [] }))).1

-- A release that loaded its row before the payout was finalized gives back what the other payout has
-- locked: both movements of the one payout are there, and nothing is locked any more.
overlapping_release :
    (find_movement
        (payout_key "p1" ":finalize")
        (release_row locked_row none (finalize_row locked_row both_locked).1).1.ledger.movements
      ≢ none)
    × (find_movement
          (payout_key "p1" ":release")
          (release_row locked_row none (finalize_row locked_row both_locked).1).1.ledger.movements
        ≢ none)
unfolding opened
overlapping_release = (λ e. ground arith, λ e. ground arith)

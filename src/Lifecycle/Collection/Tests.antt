-- ===== src/Lifecycle/Collection/Tests.antt =====
-- Runs of `settleCollectionCredit`, and the theorem at those inputs.
use dayfi_backend.Base.{
  ◌≡◌, refl, String, Bool, true, false, Option, some, none, List, [], ◌∷◌, trim, trim_start,
  trim_end, to_lower,
}
use dayfi_backend.Base.Int.{pos}
use dayfi_backend.Ledger.Types.{
  finite, LedgerMovement, parse_amount, normalize_env, normalize_asset, same_id, live, credit,
}
use dayfi_backend.Ledger.Store.{
  find_movement, find_wallet, set_balances, wallet_id, ensure_wallet_account, lock_wallet_row,
  update_balances, insert_movement, has_event,
}
use dayfi_backend.Ledger.Write.{
  ledger_write, post_movement, write_body, recover, after_of, credit_after, credit_pending_after,
  release_pending_after, default_type, direction_of, credit_org_wallet, credit_org_wallet_pending,
  release_pending_to_available,
}
use dayfi_backend.Ledger.Balance.{get_org_balance}
use dayfi_backend.Ledger.History.{empty_db}
use dayfi_backend.Lifecycle.Types.{
  TxRow, payment, find_tx, update_txs, load_tx, patch_tx, write_ledger, read_balance, meta_usdc,
  resolve_usdc_amount,
}
use dayfi_backend.Lifecycle.Funding.{
  off, live as live_mode, confirm_collection_funding, Desk, collection_key,
}
use dayfi_backend.Lifecycle.Funding.Tests.{network, opened}
use dayfi_backend.Lifecycle.Collection.{
  is_settled, Credited, credit_row, fund_credited, finish_credited, settle_row,
  settle_collection_credit,
}
use dayfi_backend.Lifecycle.Collection.Replay.{settle_replay}

-- 2 USDC that organization A has collected.
abbrev row : TxRow
row = record {
  id = "c1";
  org_id = "A";
  environment = "live";
  amount = finite (pos 200000000000000);
  currency = "USDC";
  status = "pending";
  direction = payment;
  external_id = none;
  usdc_amount = none;
  ledger_amount = none;
  settlement_usdc = none;
  funds_finalized = false;
  funds_released = false;
  off_ramp = false;
  stellar_confirmed = false;
  rail = none;
  method = "crypto";
  has_lock_id = false;
  funds_locked = false;
}

abbrev start : Desk
start = record {
  books = record { ledger = empty_db; txs = row ∷ [] };
  settlements = [];
  payments = [];
}

abbrev settled : Desk
settled = (settle_collection_credit off network "A" "c1" none start).1

unfoldable run : String
unfolding opened ledger_write parse_amount write_body post_movement ensure_wallet_account
    lock_wallet_row update_balances insert_movement find_movement find_wallet set_balances wallet_id
    normalize_env normalize_asset same_id after_of credit_after credit_pending_after
    release_pending_after recover has_event trim trim_start trim_end default_type direction_of
    credit_org_wallet credit_org_wallet_pending get_org_balance find_tx update_txs load_tx patch_tx
    write_ledger read_balance meta_usdc resolve_usdc_amount is_settled credit_row fund_credited
    finish_credited settle_row settle_collection_credit collection_key to_lower
    confirm_collection_funding release_pending_to_available
run = ""

abbrev credited : Credited
credited = record {
  transaction_id = "c1";
  credit = record {
    movement = record {
      wallet_id = record { org_id = "A"; environment = live; asset = "USDC" };
      direction = credit;
      amount = 20000000;
      movement_type = "collection_credit";
      reference = some "c1";
      reference_type = some "collection";
      reference_id = some "c1";
      idempotency_key = "collection:c1:credit";
      after = record { available = 20000000; pending = 0; locked = 0 };
    };
    duplicate = false;
  };
  usdc_amount = finite (pos 200000000000000);
  wallet_funding = none;
}

settle_replay_example :
    (settle_collection_credit off network "A" "c1" none settled).1.books.ledger.movements
    ≡ settled.books.ledger.movements
unfolding run
settle_replay_example = settle_replay network network "A" "c1" none none start settled credited refl

abbrev is_there : Option LedgerMovement → Bool
is_there none = false
is_there (some m) = true

abbrev switched : List LedgerMovement
switched =
    (settle_collection_credit live_mode network "A" "c1" none settled).1.books.ledger.movements

-- A report that comes again after payments on chain have been switched on credits the collection again.
switched_mode :
    (is_there (find_movement "collection:c1:credit" switched) ≡ true)
    × (is_there (find_movement "collection:c1:pending" switched) ≡ true)
unfolding run
switched_mode = (refl, refl)

-- ===== src/Lifecycle/Webhook/Tests.antt =====
-- Runs of the webhooks of infraLifecycleService.ts, and the theorems at those inputs.
use dayfi_backend.Base.{
  List, arith, inl, ◌≡◌, refl, true, false, some, none, [], ◌∷◌, ◌⊎◌, ◌&&◌, trim, trim_start,
  trim_end, to_lower,
}
use dayfi_backend.Base.Int.{pos}
use dayfi_backend.Ledger.Types.{JsNumber, finite}
use dayfi_backend.Lifecycle.Types.{TxRow, payment, positive}
use dayfi_backend.Ledger.Write.{credit_org}
use dayfi_backend.Ledger.Store.{find_movement}
use dayfi_backend.Lifecycle.Types.{find_tx}
use dayfi_backend.Lifecycle.Payout.Exclusive.{Synced}
use dayfi_backend.Lifecycle.Payout.History.{lock, finalize, write}
use dayfi_backend.Lifecycle.Payout.Tests.{
  both_locked, locked_row, start, five, deposit_is_other, opened,
}
use dayfi_backend.Lifecycle.Webhook.History.{Event, yellow_card, call, after, offices}
use dayfi_backend.Lifecycle.Funding.{off}
use dayfi_backend.Lifecycle.Funding.Tests.{network, empty}
use dayfi_backend.Lifecycle.Collection.{is_collection, is_settled}
use dayfi_backend.Lifecycle.YellowCard.{
  success_payment, YellowCardWebhookPayload, resolve_wallet_status, is_receive_event, includes,
  underscores_to_dashes, map_yellow_card_provider_status,
}
use dayfi_backend.Lifecycle.Webhook.{
  Office, patch_status, apply_to_row, apply_to_payout, release_by_webhook, finalize_by_webhook,
  complete_off_ramp, find_external, apply_infra_yellow_card_webhook, Charge, tx_ref_of, mismatches,
  apply_infra_flutterwave_webhook, is_flutterwave, is_naira,
}
use dayfi_backend.Lifecycle.Webhook.Guards.{
  ledger_of, Agrees, off_ramp_guarded, flutterwave_guarded,
}

-- An off-ramp payout of 2 USDC whose receipt on chain has been confirmed.
abbrev row : TxRow
row = record locked_row { external_id = some "y1"; off_ramp = true; stellar_confirmed = true }

abbrev pub office : Office
office = record {
  desk = record empty { books = record both_locked { txs = row ∷ [] } };
  off_ramps = [];
}

abbrev failure : YellowCardWebhookPayload
failure = record { id = none; sequence_id = some "y1"; status = some "Failed"; event = none }

off_ramp_guarded_example :
    (ledger_of (apply_infra_yellow_card_webhook off network none failure office).1
      ≡ ledger_of office)
    ⊎ Agrees (resolve_wallet_status failure) row
unfolding find_external trim trim_start trim_end
off_ramp_guarded_example = off_ramp_guarded off network none failure row office refl refl refl

-- 1500 naira that have been collected.
abbrev collected : TxRow
collected = record locked_row {
  external_id = some "f1";
  direction = payment;
  amount = finite (pos 150000000000000000);
  currency = "NGN";
  rail = some "flutterwave";
}

abbrev collected_office : Office
collected_office = record office {
  desk = record empty { books = record both_locked { txs = collected ∷ [] } };
}

-- An event with another amount.
abbrev charge : Charge
charge = record {
  data_ref = some "f1";
  body_ref = none;
  reference = "f1";
  amount = finite (pos 100000000000000000);
  currency = some "NGN";
}

flutterwave_guarded_example :
    (ledger_of (apply_infra_flutterwave_webhook off network none charge collected_office).1
      ≡ ledger_of collected_office)
    ⊎ ((row : TxRow) × (received : JsNumber) × (find_external
            (tx_ref_of charge)
            collected_office.desk.books.txs
          ≡ some row)
        × (is_collection row.direction && is_flutterwave row && is_naira charge row ≡ true)
        × (positive charge.amount ≡ some received)
        × (mismatches received row.amount ≡ false)
        × (is_settled row.status ≡ false))
flutterwave_guarded_example = flutterwave_guarded off network none charge collected_office

-- A status that says that something has not succeeded is read as a success.
unsuccessful_is_success :
    (map_yellow_card_provider_status "Unsuccessful" ≡ success_payment)
    × (map_yellow_card_provider_status "INCOMPLETE" ≡ success_payment)
unfolding map_yellow_card_provider_status includes underscores_to_dashes trim trim_start trim_end
    to_lower
unsuccessful_is_success = (refl, refl)

-- A payout of 2 USDC, about which nothing has been done.
abbrev pub fresh : TxRow
fresh = record locked_row {
  external_id = some "y1";
  usdc_amount = none;
  funds_locked = false;
  has_lock_id = false;
}

abbrev pub fresh_office : Office
fresh_office = record office { desk = record empty { books = record start { txs = fresh ∷ [] } } }

-- A deposit, a lock, the finalization, and a late report of a failure.
abbrev late_failure : List Event
late_failure =
    yellow_card off network none failure
    ∷ call (finalize "p1" none)
    ∷ call (lock "A" "p1" none none)
    ∷ call (write credit_org five deposit_is_other)
    ∷ []

pub fresh-Synced : Synced fresh_office.desk.books
unfolding find_tx find_movement
fresh-Synced j r found = (inl refl, inl refl, ground arith)

-- The row at the end: spent, and not given back.
abbrev spent_row : TxRow
spent_row = record fresh {
  usdc_amount = some (finite (pos 200000000000000));
  status = "settled";
  funds_finalized = true;
  has_lock_id = true;
}

late_failure_row :
    find_tx "p1" none (offices late_failure fresh_office).desk.books.txs ≡ some spent_row
unfolding opened after offices patch_status apply_infra_yellow_card_webhook apply_to_row
    apply_to_payout release_by_webhook finalize_by_webhook complete_off_ramp find_external
    is_receive_event resolve_wallet_status map_yellow_card_provider_status includes
    underscores_to_dashes to_lower
late_failure_row = refl

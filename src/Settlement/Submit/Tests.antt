-- ===== src/Settlement/Submit/Tests.antt =====
-- Runs of settlePayoutOnStellar of infraSettlementService.ts, and the theorems at those inputs.
use dayfi_backend.Base.{
  ◌≡◌, refl, String, true, false, some, none, List, [], ◌∷◌, length, inl, ◌⊎◌, trim, trim_start,
  trim_end, to_lower, to_upper,
}
use dayfi_backend.Base.Int.{pos}
use dayfi_backend.Ledger.Types.{finite}
use dayfi_backend.Ledger.Write.{credit_org}
use dayfi_backend.Ledger.Store.{find_movement}
use dayfi_backend.Lifecycle.Types.{TxRow, find_tx, already_released}
use dayfi_backend.Lifecycle.Payout.{payout_key}
use dayfi_backend.Lifecycle.Payout.History.{books, lock, write}
use dayfi_backend.Lifecycle.Payout.Tests.{
  opened, start, reserved, locked_row, five, deposit_is_other,
}
use dayfi_backend.Lifecycle.YellowCard.{includes}
use dayfi_backend.Lifecycle.Webhook.History.{call}
use dayfi_backend.Lifecycle.Webhook
use dayfi_backend.Lifecycle.Webhook.Tests.{fresh, fresh_office, fresh-Synced}
use dayfi_backend.Settlement.{
  Till, refused, payout_error, find_row, update_settlement_rows, confirm_and_finalize,
}
use dayfi_backend.Settlement.Tests.{till, success}
use dayfi_backend.Settlement.Checks.{
  Payment, Services, accepted, payout_mode, find_payout, find_by_key, find_for_payout, is_address,
  has_symbols, check_destination, check_payout, ◌>>=◌, require, not_finalized, destination_of,
  amount_of, resolve_payout_signing,
}
use dayfi_backend.Settlement.Submit.{
  follow_payment, after_payment, record_payment, submit_payment, resume_settlement,
  place_settlement, settle_payout_on_stellar,
}
use dayfi_backend.Settlement.Submit.Guards.{Payable}
use dayfi_backend.Settlement.History.{
  Event, settle_on_chain, elsewhere, World, after, worlds, debited_or_released,
}

abbrev address : String
address = "GAAAAAAAAAAAAAAAAAAAAAAAAAAAAAAAAAAAAAAAAAAAAAAAAAAAAAAA"

abbrev receipt : Payment
receipt = record {
  source_account = "org";
  destination_account = address;
  transaction_hash = "hash2";
  is_mock = true;
  has_ledger_sequence = true;
  final_status = "SUCCESS";
}

-- The network takes every payment.
abbrev services : Services
services = record {
  setting = some "mock";
  is_testnet = true;
  find_destination =
      λ row. some (record { address = address; asset = "USDC"; network = "stellar" });
  own_wallet = λ org env. some "GORG";
  signing_keys = λ org env. some (record { secret = "S"; public_key = "GORG" });
  public_key_of = λ s. s;
  usdc_balance = λ key. 0;
  submit = λ to amount secret. accepted receipt;
  verify = success;
}

-- Opens all that the calls compute with.
unfoldable checks : String
unfolding opened find_payout find_by_key find_for_payout is_address has_symbols check_destination
    check_payout ◌>>=◌ require not_finalized destination_of amount_of payout_mode
    resolve_payout_signing to_lower to_upper
checks = ""

-- The row of the payout that has been given back: it still shows the id of the lock.
abbrev returned_row : TxRow
returned_row = record locked_row { status = "failed"; funds_released = true; funds_locked = false }

returned_row-Payable : Payable services returned_row address (finite (pos 200000000000000))
unfolding checks trim trim_start trim_end
returned_row-Payable = (
  refl,
  inl refl,
  refl,
  refl,
  (
    record { address = address; asset = "USDC"; network = "stellar" },
    refl,
    refl,
    refl,
    refl,
    refl,
    refl,
  ),
)

-- The payment for the payout that has been given back is sent, and nothing is taken for it.
returned_paid :
    (settle_payout_on_stellar services "A" "p1" none "s2" till).0
    ≡ refused (payout_error already_released)
unfolding checks find_row update_settlement_rows confirm_and_finalize after_payment record_payment
    submit_payment resume_settlement place_settlement settle_payout_on_stellar
returned_paid = refl

-- A network that takes payments and does not confirm them yet: the second call pays once more.
abbrev slow : Services
slow = record services {
  submit = λ to amount secret.
      accepted
        (record receipt { is_mock = false; has_ledger_sequence = false; final_status = "PENDING" });
  verify = λ hash. record { confirmed = false; status = "PENDING" };
}

abbrev first_try : Till
first_try =
    (settle_payout_on_stellar slow "A" "p1" none "s1"
      (record { books = books reserved start; settlements = []; sent = [] })).1

paid_again : length (settle_payout_on_stellar slow "A" "p1" none "s2" first_try).1.sent ≡ 2
unfolding checks includes follow_payment find_row update_settlement_rows confirm_and_finalize
    after_payment record_payment submit_payment resume_settlement place_settlement
    settle_payout_on_stellar
paid_again = refl

abbrev world : World
world = record { office = fresh_office; settlements = []; sent = [] }

-- A deposit, a lock, and the settlement on the network.
abbrev paid_on_chain : List Event
paid_on_chain =
    settle_on_chain services "A" "p1" none "s1"
    ∷ elsewhere (call (lock "A" "p1" none none))
    ∷ elsewhere (call (write credit_org five deposit_is_other))
    ∷ []

abbrev paid_row : TxRow
paid_row = record fresh {
  usdc_amount = some (finite (pos 200000000000000));
  status = "settled";
  funds_finalized = true;
  has_lock_id = true;
}

paid_on_chain_row :
    find_tx "p1" none (worlds paid_on_chain world).office.desk.books.txs ≡ some paid_row
unfolding checks find_row update_settlement_rows confirm_and_finalize after_payment record_payment
    submit_payment resume_settlement place_settlement settle_payout_on_stellar after worlds
    Webhook.History.after
paid_on_chain_row = refl

debited_or_released_example :
    (find_movement
        (payout_key "p1" ":finalize")
        (worlds paid_on_chain world).office.desk.books.ledger.movements
      ≡ none)
    ⊎ (find_movement
          (payout_key "p1" ":release")
          (worlds paid_on_chain world).office.desk.books.ledger.movements
        ≡ none)
debited_or_released_example =
    debited_or_released paid_on_chain world "p1" paid_row fresh-Synced paid_on_chain_row

-- ===== src/Settlement/Tests.antt =====
-- Runs of confirmStellarSettlement of infraSettlementService.ts, and the theorem at those inputs.
use dayfi_backend.Base.{◌≡◌, refl, String, true, some, none, [], ◌∷◌}
use dayfi_backend.Base.Int.{pos}
use dayfi_backend.Ledger.Types.{finite}
use dayfi_backend.Lifecycle.Types.{already_released}
use dayfi_backend.Lifecycle.Payout.{finalize_payout_debit}
use dayfi_backend.Lifecycle.Payout.History.{release, books}
use dayfi_backend.Lifecycle.Payout.Tests.{start, reserved, opened}
use dayfi_backend.Settlement.{
  SettlementRow, Till, refused, payout_error, Verified, find_row, update_settlement_rows,
  confirm_and_finalize, apply_verified, confirm_loaded, confirm_stellar_settlement,
}
use dayfi_backend.Settlement.Confirm.{confirm_final}

-- A payment of the payout that has been sent, while the payout has been given back.
abbrev pub sent_row : SettlementRow
sent_row = record {
  id = "s1";
  org_id = "A";
  environment = "live";
  payout_transaction_id = "p1";
  rail = "STELLAR";
  asset = "USDC";
  amount = finite (pos 200000000000000);
  source_ref = none;
  destination_ref = none;
  status = "failed";
  external_reference = some "hash";
  provider_reference = some "hash";
  failure_reason = none;
  idempotency_key = "stellar:payout:p1";
}

abbrev pub till : Till
till = record {
  books = books (release "p1" none none ∷ reserved) start;
  settlements = sent_row ∷ [];
  sent = [];
}

abbrev pub success : String → Verified
success hash = record { confirmed = true; status = "SUCCESS" }

confirm_final_example :
    ((confirm_stellar_settlement "A" "s1" success till).1.books
      ≡ (finalize_payout_debit "p1" (some "A") till.books).1)
    × ((confirm_stellar_settlement "A" "s1" success
          (confirm_stellar_settlement "A" "s1" success till).1).1
        ≡ (confirm_stellar_settlement "A" "s1" success till).1)
unfolding find_row
confirm_final_example =
    confirm_final "A" "s1" "hash" success success till sent_row refl refl refl refl refl

-- The settlement becomes confirmed, while the payout stays given back.
confirmed_unspent :
    (confirm_stellar_settlement "A" "s1" success till).0 ≡ refused (payout_error already_released)
unfolding opened find_row update_settlement_rows confirm_and_finalize apply_verified confirm_loaded
    confirm_stellar_settlement
confirmed_unspent = refl

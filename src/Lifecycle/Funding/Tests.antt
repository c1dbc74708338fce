-- ===== src/Lifecycle/Funding/Tests.antt =====
-- Runs of infraStellarFundingService.ts, and the theorems at those inputs.
use dayfi_backend.Base.{◌≡◌, ◌≤◌, refl, arith, String, true, false, some, [], ◌∷◌}
use dayfi_backend.Base.Int.{pos}
use dayfi_backend.Ledger.Types.{JsNumber, finite}
use dayfi_backend.Ledger.Types
use dayfi_backend.Ledger.History.{empty_db}
use dayfi_backend.Lifecycle.Funding.{
  live, Desk, Network, Submission, active_wallet, find_settlement, update_settlements, is_funding,
  fund_collection_stellar_wallet, funding_key, answered, fund_amount, with_wallet, check_treasury,
  pay_collection, ensure_settlement, submit_funding, settle_submission,
}
use dayfi_backend.Lifecycle.Funding.Rows.{paid}
use dayfi_backend.Lifecycle.Funding.Once.{Sure, FundingCall, calls, paid_once, after_call}

abbrev two : JsNumber
two = finite (pos 200000000000000)

abbrev pub empty : Desk
empty = record { books = record { ledger = empty_db; txs = [] }; settlements = []; payments = [] }

-- A submission that neither is final nor can be verified.
abbrev unsure : Submission
unsure = record { transaction_hash = "h1"; is_final = false }

abbrev slow : Network
slow = record {
  wallet = active_wallet "G1";
  is_testnet = true;
  has_secret = true;
  treasury = some 500000000000000;
  payment = some unsure;
  verified = false;
}

abbrev pub network : Network
network = record slow { verified = true }

abbrev call : FundingCall
call = record {
  mode = live;
  network = network;
  org_id = "A";
  environment = "live";
  collection_id = "c1";
  usdc_amount = two;
}

unfoldable pub opened : String
unfolding find_settlement update_settlements is_funding fund_collection_stellar_wallet funding_key
    answered fund_amount with_wallet check_treasury pay_collection ensure_settlement submit_funding
    settle_submission calls after_call Types.round_minor
opened = ""

call-Sure : Sure network
call-Sure sub same = ground arith

paid_once_example : paid "A" (funding_key "c1") (calls (call ∷ call ∷ []) empty).payments ≤ 1
paid_once_example = paid_once (call ∷ call ∷ []) "A" "c1" empty (call-Sure, (call-Sure, tt)) refl

-- Without the answer of the verification, the second call pays again.
abbrev waiting : Desk
waiting = (fund_collection_stellar_wallet live slow "A" "live" "c1" two empty).1

paid_twice :
    paid "A"
      (funding_key "c1")
      (fund_collection_stellar_wallet live slow "A" "live" "c1" two waiting).1.payments
    ≡ 2
unfolding opened
paid_twice = refl

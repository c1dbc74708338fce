-- ===== src/Lifecycle/Collection.antt =====
-- `settleCollectionCredit`: the credit of a collection, and the payment on chain that follows it.
pub mod Replay
mod Tests
use dayfi_backend.Base.{
  ℕ, String, Bool, true, false, ◌||◌, not, Option, none, some, List, or_else, to_lower, str_eq,
  if◌then◌else◌,
}
use dayfi_backend.Ledger.Types.{LedgerWriteParams, LedgerMovement, JsNumber}
use dayfi_backend.Ledger.Types
use dayfi_backend.Ledger.Store.{Db}
use dayfi_backend.Ledger.Write.{Posted, credit_org_wallet, credit_org_wallet_pending}
use dayfi_backend.Lifecycle.Types.{
  TxDirection, payment, payout, deposit, internal_transfer, TxRow, Books, wrong_direction, Result,
  ok, err, Call, ◌>>=◌, pure, throw_if, write_ledger, as_env, read_balance, load_tx, patch_tx,
  resolve_usdc_amount, meta_usdc,
}
use dayfi_backend.Lifecycle.Payout.{or_amount}
use dayfi_backend.Lifecycle.Funding.{
  FundingMode, is_off, Network, Desk, Outcome, skipped, reached, threw, failed, collection_key,
  fund_collection_stellar_wallet,
}

abbrev pub is_collection : TxDirection → Bool
is_collection payment = true
is_collection payout = false
is_collection deposit = false
is_collection internal_transfer = false

unfoldable pub is_settled : String → Bool
is_settled status =
    let s = to_lower status in str_eq s "settled" || str_eq s "completed" || str_eq s "success"

abbrev pub credit_suffix : Bool → String
credit_suffix funded = if funded then ":pending" else ":credit"

abbrev pub credit_params : Bool → TxRow → JsNumber → LedgerWriteParams
credit_params funded row amount = record {
  org_id = row.org_id;
  environment = as_env row.environment;
  amount = amount;
  asset = none;
  idempotency_key = collection_key row.id (credit_suffix funded);
  movement_type = some (if funded then "collection_pending" else "collection_credit");
  reference = some (or_else row.external_id row.id);
  reference_type = some "collection";
  reference_id = some row.id;
}

-- The write of the credit: to the pending balance if a payment on chain is to follow.
abbrev pub credit_write :
    Bool → LedgerWriteParams → List LedgerMovement → Db → Types.Result Posted × Db
credit_write true = credit_org_wallet_pending
credit_write false = credit_org_wallet

abbrev pub credited_status : Bool → TxRow → String
credited_status funded row =
    if is_settled row.status then row.status else if funded then "processing" else "settled"

-- What a settlement answers.
pub record Credited : Type 0 where
  pub transaction_id : String
  pub credit : Posted
  pub usdc_amount : JsNumber
  pub wallet_funding : Option Outcome

-- The part before the payment on chain.
unfoldable pub credit_row : Bool → TxRow → Option JsNumber → Call (Posted × JsNumber)
credit_row funded row conversion = do
  is_ok ← throw_if (not (is_collection row.direction)) wrong_direction
  amount ← or_amount (meta_usdc row) (resolve_usdc_amount row.amount row.currency conversion)
  credit ← write_ledger (credit_write funded) (credit_params funded row amount)
  patched ←
      patch_tx row.id
        (λ r. record r { status = credited_status funded row; usdc_amount = some amount })
  pure (credit, amount)

-- An error of the payment on chain is caught.
abbrev pub caught : Outcome → Outcome
caught skipped = skipped
caught (reached s) = reached s
caught (threw e) = reached failed

unfoldable pub fund_credited :
    FundingMode → Network → TxRow → JsNumber → Desk → Option Outcome × Desk
fund_credited mode net row amount d =
    if is_off mode
    then (none, d)
    else (let (out, funded) =
          fund_collection_stellar_wallet mode net row.org_id (as_env row.environment) row.id amount
            d in
        (some (caught out), funded))

-- What follows the credit: the payment on chain, and the balance that is answered.
unfoldable pub finish_credited :
    FundingMode → Network → TxRow → Result (Posted × JsNumber) → Desk → Result Credited × Desk
finish_credited mode net row (err e) d = (err e, d)
finish_credited mode net row (ok (credit, amount)) d =
    let (funding, funded) = fund_credited mode net row amount d in
    let (balance, books) = read_balance row funded.books in
    elim balance [
      | err e ↦ (err e, record funded { books = books })
      | ok b ↦ (
        ok (record {
          transaction_id = row.id;
          credit = credit;
          usdc_amount = amount;
          wallet_funding = funding;
        }),
        record funded { books = books },
      )
    ]

-- `settleCollectionCredit`, on the row that was loaded.
unfoldable pub settle_row :
    FundingMode → Network → TxRow → Option JsNumber → Desk → Result Credited × Desk
settle_row mode net row conversion d =
    let (credit, books) = credit_row (not (is_off mode)) row conversion d.books in
    finish_credited mode net row credit (record d { books = books })

unfoldable pub settle_collection_credit :
    FundingMode → Network → String → String → Option JsNumber → Desk → Result Credited × Desk
settle_collection_credit mode net org id conversion d = elim (load_tx id (some org) d.books).0 [
  | err e ↦ (err e, d)
  | ok r ↦ settle_row mode net r conversion d
]

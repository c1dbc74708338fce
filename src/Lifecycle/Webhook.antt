-- ===== src/Lifecycle/Webhook.antt =====
-- `applyInfraYellowCardWebhook` and `applyInfraFlutterwaveWebhook`.
pub mod Guards
pub mod Kept
pub mod History
pub mod Tests
use Prim.Native.String
use dayfi_backend.Base.{
  ℕ, suc, ◌+◌, ◌-◌, ◌*◌, String, Bool, true, false, ◌||◌, ◌&&◌, not, Option, none, some, List, [],
  ◌∷◌, or_else, trim, to_upper, is_empty, str_eq, ltb, if◌then◌else◌,
}
use dayfi_backend.Base.Int.{ℤ, pos, negsuc}
use dayfi_backend.Ledger.Types.{JsNumber, not_finite, finite}
use dayfi_backend.Lifecycle.Types.{
  TxDirection, payment, payout, deposit, internal_transfer, TxRow, Books, LifecycleError,
  already_released, already_finalized, Result, ok, err, update_txs, positive,
}
use dayfi_backend.Lifecycle.Payout.{is_payout, finalize_payout_debit, release_payout_lock}
use dayfi_backend.Lifecycle.Funding.{
  FundingMode, Network, Desk, SettlementStatus, pending, submitted, confirmed, failed,
  pending_treasury,
}
use dayfi_backend.Lifecycle.Collection.{is_collection, is_settled, settle_collection_credit}
use dayfi_backend.Lifecycle.YellowCard.{
  WalletStatus, success_payment, failed_payment, pending_payment, YellowCardWebhookPayload,
  resolve_wallet_status, event_of, is_receive_event,
}

-- A settlement of a payout by the rail YELLOW_CARD.
pub record OffRamp : Type 0 where
  pub payout_id : String
  pub status : SettlementStatus
  pub external_reference : Option String

-- All tables. The rows of `infra_transactions` stand newest first.
pub record Office : Type 0 where
  pub desk : Desk
  pub off_ramps : List OffRamp

pub data Action : Type 0 where
  collection_credit collection_already_settled collection_failed collection_pending : Action
  payout_already_released payout_already_finalized payout_finalize payout_release payout_pending :
      Action
  offramp_awaiting_stellar offramp_provider_retry_required invalid_amount amount_mismatch : Action

pub data Handled : Type 0 where
  unhandled : Handled
  handled : Action → String → Handled
  threw : LifecycleError → Handled

-- `loadTxByExternalId`
unfoldable pub find_external : String → List TxRow → Option TxRow
find_external id [] = none
find_external id (r ∷ rs) =
    if (elim r.external_id [ some e ↦ str_eq e id | none ↦ false ])
    then some r
    else find_external id rs

abbrev pub set_books : Books → Office → Office
set_books b o = record o { desk = record o.desk { books = b } }

-- `patchTx`, of the status alone.
unfoldable pub patch_status : String → String → Office → Office
patch_status id status o =
    set_books
      (record o.desk.books {
        txs = update_txs id (λ r. record r { status = status }) o.desk.books.txs;
      })
      o

unfoldable pub credit_collection :
    FundingMode → Network → Option JsNumber → TxRow → Office → Handled × Office
credit_collection mode net conversion row o =
    let (credited, desk) = settle_collection_credit mode net row.org_id row.id conversion o.desk in
    elim credited [
      | err e ↦ (threw e, record o { desk = desk })
      | ok c ↦ (handled collection_credit row.id, record o { desk = desk })
    ]

unfoldable pub apply_to_collection :
    FundingMode
    → Network
    → Option JsNumber
    → Option WalletStatus
    → TxRow
    → Office
    → Handled × Office
apply_to_collection mode net conversion (some success_payment) row o =
    credit_collection mode net conversion row o
apply_to_collection mode net conversion (some failed_payment) row o =
    if is_settled row.status
    then (handled collection_already_settled row.id, o)
    else (handled collection_failed row.id, patch_status row.id "failed" o)
apply_to_collection mode net conversion (some pending_payment) row o =
    (handled collection_pending row.id, o)
apply_to_collection mode net conversion none row o = (handled collection_pending row.id, o)

-- `COALESCE(reference, event)`
abbrev pub coalesce : Option String → String → Option String
coalesce none event = some event
coalesce (some r) event = some r

unfoldable pub confirm_off_ramps : String → String → List OffRamp → List OffRamp
confirm_off_ramps id event [] = []
confirm_off_ramps id event (r ∷ rs) =
    (if str_eq id r.payout_id
      then record r { status = confirmed; external_reference = coalesce r.external_reference event }
      else r)
    ∷ confirm_off_ramps id event rs

abbrev pub is_open : SettlementStatus → Bool
is_open pending = true
is_open submitted = true
is_open pending_treasury = false
is_open confirmed = false
is_open failed = false

unfoldable pub fail_off_ramps : String → List OffRamp → List OffRamp
fail_off_ramps id [] = []
fail_off_ramps id (r ∷ rs) =
    (if str_eq id r.payout_id && is_open r.status then record r { status = failed } else r)
    ∷ fail_off_ramps id rs

-- What follows a payout that has been finalized.
unfoldable pub complete_off_ramp : TxRow → String → Office → Office
complete_off_ramp row event o =
    if row.off_ramp
    then patch_status row.id "settled"
        (record o { off_ramps = confirm_off_ramps row.id event o.off_ramps })
    else o

unfoldable pub finalize_by_webhook : TxRow → String → Office → Handled × Office
finalize_by_webhook row event o =
    let (r, books) = finalize_payout_debit row.id none o.desk.books in
    elim r [
      | err already_released ↦ (handled payout_already_released row.id, set_books books o)
      | err e ↦ (threw e, set_books books o)
      | ok posted ↦
          (handled payout_finalize row.id, complete_off_ramp row event (set_books books o))
    ]

unfoldable pub release_by_webhook : TxRow → Office → Handled × Office
release_by_webhook row o =
    let (r, books) = release_payout_lock row.id none (some "failed") o.desk.books in
    elim r [
      | err already_finalized ↦ (handled payout_already_finalized row.id, set_books books o)
      | err e ↦ (threw e, set_books books o)
      | ok posted ↦ (handled payout_release row.id, set_books books o)
    ]

unfoldable pub apply_to_payout : Option WalletStatus → TxRow → String → Office → Handled × Office
apply_to_payout (some success_payment) row event o =
    if row.funds_released
    then (handled payout_already_released row.id, o)
    else if row.off_ramp && not row.stellar_confirmed
    then (handled offramp_awaiting_stellar row.id, o)
    else finalize_by_webhook row event o
apply_to_payout (some failed_payment) row event o =
    if row.funds_finalized
    then (handled payout_already_finalized row.id, o)
    else if row.off_ramp && row.stellar_confirmed
    then (
      handled offramp_provider_retry_required row.id,
      patch_status row.id "processing" (record o { off_ramps = fail_off_ramps row.id o.off_ramps }),
    )
    else release_by_webhook row o
apply_to_payout (some pending_payment) row event o = (handled payout_pending row.id, o)
apply_to_payout none row event o = (handled payout_pending row.id, o)

-- `payload.sequenceId || payload.id || ''`
abbrev pub sequence_of : YellowCardWebhookPayload → String
sequence_of p = trim (or_else p.sequence_id (or_else p.id ""))

-- The id of the event; `${sequenceId}:${status}` if the payload has none.
abbrev pub provider_event : YellowCardWebhookPayload → String
provider_event p = or_else p.id (
    String.◌++◌ (sequence_of p)
      (String.◌++◌ ":" (or_else p.status (or_else (some (event_of p)) "event"))))

unfoldable pub apply_to_row :
    FundingMode
    → Network
    → Option JsNumber
    → YellowCardWebhookPayload
    → TxRow
    → Office
    → Handled × Office
apply_to_row mode net conversion p row o =
    if is_collection row.direction
    then apply_to_collection mode net conversion (resolve_wallet_status p) row o
    else if is_receive_event (event_of p)
    then (unhandled, o)
    else if is_payout row.direction
    then apply_to_payout (resolve_wallet_status p) row (provider_event p) o
    else (unhandled, o)

unfoldable pub apply_infra_yellow_card_webhook :
    FundingMode → Network → Option JsNumber → YellowCardWebhookPayload → Office → Handled × Office
apply_infra_yellow_card_webhook mode net conversion p o =
    if is_empty (sequence_of p)
    then (unhandled, o)
    else elim (find_external (sequence_of p) o.desk.books.txs) [
      | none ↦ (unhandled, o)
      | some row ↦ apply_to_row mode net conversion p row o
    ]

-- What a charge.completed event of Flutterwave says: the reference in `data`, in the body and as it was
-- read, the amount and the currency.
pub record Charge : Type 0 where
  pub data_ref : Option String
  pub body_ref : Option String
  pub reference : String
  pub amount : JsNumber
  pub currency : Option String

-- `data.tx_ref ?? body.tx_ref ?? payload.reference`
abbrev pub tx_ref_of : Charge → String
tx_ref_of c =
    trim
      (elim c.data_ref [ some r ↦ r | none ↦ elim c.body_ref [ some r ↦ r | none ↦ c.reference ] ])

-- One unit of a currency, as a count of 10^-14.
abbrev pub one_unit : ℕ
one_unit = 100000000000000

-- `Math.abs(received - expected) > 1`
unfoldable pub mismatches : JsNumber → JsNumber → Bool
mismatches not_finite expected = false
mismatches received not_finite = false
mismatches (finite (negsuc n)) (finite z) = false
mismatches (finite (pos n)) (finite (pos m)) = ltb one_unit (n - m) || ltb one_unit (m - n)
mismatches (finite (pos n)) (finite (negsuc m)) = ltb one_unit (n + suc m)

-- The guards on a collection of the rail flutterwave that has been found, and its credit.
unfoldable pub apply_charge :
    FundingMode → Network → Option JsNumber → Charge → TxRow → Office → Handled × Office
apply_charge mode net conversion c row o = elim (positive c.amount) [
  | none ↦ (handled invalid_amount row.id, o)
  | some received ↦
      if mismatches received row.amount
      then (handled amount_mismatch row.id, patch_status row.id row.status o)
      else if is_settled row.status
      then (handled collection_already_settled row.id, o)
      else credit_collection mode net conversion row o
]

abbrev pub is_flutterwave : TxRow → Bool
is_flutterwave row = str_eq (or_else row.rail "") "flutterwave"

abbrev pub is_naira : Charge → TxRow → Bool
is_naira c row = str_eq (to_upper (or_else c.currency (or_else (some row.currency) "NGN"))) "NGN"

unfoldable pub apply_infra_flutterwave_webhook :
    FundingMode → Network → Option JsNumber → Charge → Office → Handled × Office
apply_infra_flutterwave_webhook mode net conversion c o =
    if is_empty (tx_ref_of c)
    then (unhandled, o)
    else elim (find_external (tx_ref_of c) o.desk.books.txs) [
      | none ↦ (unhandled, o)
      | some row ↦
          if is_collection row.direction && is_flutterwave row && is_naira c row
          then apply_charge mode net conversion c row o
          else (unhandled, o)
    ]

-- ===== src/Settlement.antt =====
-- src/modules/infra/infraSettlementService.ts: the confirmation of a payment on the Stellar network that
-- settles a payout, confirmAndFinalize and confirmStellarSettlement; Submit has settlePayoutOnStellar.
-- What the network says of a payment, which verifyUsdcPayment asks for, is an argument. The JSON of
-- metadata and the times are left out.
pub mod Confirm
pub mod Checks
pub mod Submit
pub mod History
pub mod Tests
use Prim.Native.String
use dayfi_backend.Base.{
  String, Bool, true, false, ◌&&◌, not, Option, none, some, List, [], ◌∷◌, or_null, to_upper,
  str_eq, if◌then◌else◌,
}
use dayfi_backend.Ledger.Types.{JsNumber}
use dayfi_backend.Lifecycle.Types.{Books, LifecycleError, ok, err}
use dayfi_backend.Lifecycle.Payout.{finalize_payout_debit, release_payout_lock}
use dayfi_backend.Lifecycle.YellowCard.{includes}

pub record SettlementRow : Type 0 where
  pub id : String
  pub org_id : String
  pub environment : String
  pub payout_transaction_id : String
  pub rail : String
  pub asset : String
  pub amount : JsNumber
  pub source_ref : Option String
  pub destination_ref : Option String
  pub status : String
  pub external_reference : Option String
  pub provider_reference : Option String
  pub failure_reason : Option String
  pub idempotency_key : String

-- A payment that the network has accepted.
pub record Sent : Type 0 where
  pub payout_id : String
  pub destination : String
  pub amount : JsNumber

-- The tables, and the payments sent, the newest first. Each statement and each call on a payout commits
-- on its own.
pub record Till : Type 0 where
  pub books : Books
  pub settlements : List SettlementRow
  pub sent : List Sent

pub data SettlementError : Type 0 where
  not_found wrong_rail no_external_ref tx_failed not_confirmed payout_not_found unsupported_method
        not_locked payout_finalized no_destination unsupported_network unsupported_asset
        invalid_address self_transfer invalid_amount mainnet_blocked insufficient_onchain_balance
        org_wallet_unavailable submit_failed :
      SettlementError
  payout_error : LifecycleError → SettlementError

pub data Answer : Type 0 where
  settled_as : SettlementRow → Answer
  pending_as : SettlementRow → Answer
  refused : SettlementError → Answer

-- What the network says of a payment: whether it is confirmed, and its status.
pub record Verified : Type 0 where
  pub confirmed : Bool
  pub status : String

-- `a ?? b`, and COALESCE.
abbrev pub first_of : Option String → Option String → Option String
first_of (some s) next = some s
first_of none next = next

abbrev pub is_settlement : String → String → SettlementRow → Bool
is_settlement org id r = str_eq id r.id && str_eq org r.org_id

-- The query of `loadSettlement`.
unfoldable pub find_row : String → String → List SettlementRow → Option SettlementRow
find_row org id [] = none
find_row org id (r ∷ rs) = if is_settlement org id r then some r else find_row org id rs

-- `loadSettlement`, as the last step of a call.
abbrev pub reload : String → String → Till → Answer
reload org id t = elim (find_row org id t.settlements) [
  | some r ↦ settled_as r
  | none ↦ refused not_found
]

-- An UPDATE of the row with the id.
unfoldable pub update_settlement_rows :
    String → (SettlementRow → SettlementRow) → List SettlementRow → List SettlementRow
update_settlement_rows id patch [] = []
update_settlement_rows id patch (r ∷ rs) =
    (if str_eq id r.id then patch r else r) ∷ update_settlement_rows id patch rs

abbrev pub confirmed_row : Option String → SettlementRow → SettlementRow
confirmed_row hash r = record r {
  status = "confirmed";
  external_reference = first_of hash r.external_reference;
  provider_reference = first_of hash r.provider_reference;
  failure_reason = none;
}

-- `confirmAndFinalize`: the settlement is marked first, and then the payout is finalized.
unfoldable pub confirm_and_finalize : String → SettlementRow → Option String → Till → Answer × Till
confirm_and_finalize org s given t =
    let hash = first_of (or_null given) (or_null s.external_reference) in
    let rows = update_settlement_rows s.id (confirmed_row hash) t.settlements in
    let (r, b) = finalize_payout_debit s.payout_transaction_id (some org) t.books in
    let t' = record t { books = b; settlements = rows } in
    elim r [ ok posted ↦ (reload org s.id t', t') | err e ↦ (refused (payout_error e), t') ]

-- A payment that failed: the settlement is marked, the payout is given back, and the error is thrown.
unfoldable pub fail_settlement :
    String → SettlementRow → String → SettlementError → Till → Answer × Till
fail_settlement org s reason e t =
    let rows =
      update_settlement_rows s.id
        (λ r. record r { status = "failed"; failure_reason = some reason }) t.settlements in
    let (r, b) = release_payout_lock s.payout_transaction_id (some org) (some "failed") t.books in
    let t' = record t { books = b; settlements = rows } in
    elim r [ ok posted ↦ (refused e, t') | err x ↦ (refused (payout_error x), t') ]

abbrev pub chain_failed : Verified → Bool
chain_failed v = includes (to_upper v.status) "FAIL"

abbrev pub failure_text : Verified → String
failure_text v = String.◌++◌ "On-chain failure: " v.status

-- What follows on the answer of the network.
unfoldable pub apply_verified : String → SettlementRow → String → Verified → Till → Answer × Till
apply_verified org s hash v t =
    if v.confirmed
    then confirm_and_finalize org s (some hash) t
    else if chain_failed v
    then fail_settlement org s (failure_text v) tx_failed t
    else (refused not_confirmed, t)

-- `confirmStellarSettlement`, on the row that was loaded.
unfoldable pub confirm_loaded : String → SettlementRow → (String → Verified) → Till → Answer × Till
confirm_loaded org s verify t =
    if not (str_eq s.rail "STELLAR")
    then (refused wrong_rail, t)
    else if str_eq s.status "confirmed"
    then (settled_as s, t)
    else elim (or_null s.external_reference) [
      | none ↦ (refused no_external_ref, t)
      | some hash ↦ apply_verified org s hash (verify hash) t
    ]

-- `confirmStellarSettlement`
unfoldable pub confirm_stellar_settlement :
    String → String → (String → Verified) → Till → Answer × Till
confirm_stellar_settlement org id verify t = elim (find_row org id t.settlements) [
  | none ↦ (refused not_found, t)
  | some s ↦ confirm_loaded org s verify t
]

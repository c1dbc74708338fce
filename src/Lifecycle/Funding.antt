-- ===== src/Lifecycle/Funding.antt =====
-- `fundCollectionStellarWallet` and `confirmCollectionFunding` of infraStellarFundingService.ts: the
-- payment on chain that follows the credit of a collection. What the wallet service and the Stellar
-- network answer is an argument.
pub mod Rows
pub mod Steps
pub mod Once
pub mod Tests
use Prim.Native.String
use dayfi_backend.Base.{
  ℕ, ◌+◌, String, Bool, true, false, ◌&&◌, ◌||◌, not, Option, none, some, List, [], ◌∷◌, ltb,
  str_eq, to_lower, trim, or_else, if◌then◌else◌,
}
use dayfi_backend.Base.Int.{pos}
use dayfi_backend.Ledger.Types.{
  LedgerWriteParams, LedgerError, JsNumber, not_finite, finite, sub_units,
}
use dayfi_backend.Ledger.Types
use dayfi_backend.Ledger.Write.{release_pending_to_available}
use dayfi_backend.Lifecycle.Types.{TxRow, Books, update_txs, round7, positive, as_env}

pub data FundingMode : Type 0 where
  off mock live : FundingMode

-- `getInfraStellarFundingMode`
unfoldable pub get_infra_stellar_funding_mode : Option String → FundingMode
get_infra_stellar_funding_mode setting =
    let raw = to_lower (trim (or_else setting "off")) in
    if str_eq raw "mock" then mock else if str_eq raw "live" then live else off

pub data SettlementStatus : Type 0 where
  pending_treasury pending submitted confirmed failed : SettlementStatus

-- A row of `infra_settlements` that funds a collection; a reference that is there is not empty.
pub record Settlement : Type 0 where
  pub org_id : String
  pub idempotency_key : String
  pub environment : String
  pub collection_id : String
  pub amount : JsNumber
  pub status : SettlementStatus
  pub external_reference : Option String

-- A payment that has been sent to the network.
pub record Payment : Type 0 where
  pub org_id : String
  pub idempotency_key : String
  pub transaction_hash : String

-- The tables, and the payments that have been sent, newest first.
pub record Desk : Type 0 where
  pub books : Books
  pub settlements : List Settlement
  pub payments : List Payment

-- The wallet of the organization, by its public key if it is active.
pub data WalletAnswer : Type 0 where
  active_wallet : String → WalletAnswer
  provision_failed wallet_not_active : WalletAnswer

-- What a submission answers: its hash, and whether it is final (a mock, a ledger sequence or a final
-- status of success).
pub record Submission : Type 0 where
  pub transaction_hash : String
  pub is_final : Bool

pub record Network : Type 0 where
  pub wallet : WalletAnswer
  pub is_testnet : Bool
  pub has_secret : Bool
  -- The balance of the treasury as a count of 10^-14, none if it cannot be read.
  pub treasury : Option ℕ
  -- None if the submission throws.
  pub payment : Option Submission
  pub verified : Bool

pub data FundingError : Type 0 where
  invalid_amount wallet_provision_failed not_active mainnet_blocked : FundingError
  missing_treasury_secret treasury_balance_unknown funding_failed : FundingError
  release_error : LedgerError → FundingError

-- `CollectionFundingResult`, by its status.
pub data Outcome : Type 0 where
  skipped : Outcome
  reached : SettlementStatus → Outcome
  threw : FundingError → Outcome

unfoldable pub is_funding : String → String → Settlement → Bool
is_funding org key s = str_eq org s.org_id && str_eq key s.idempotency_key

unfoldable pub find_settlement : String → String → List Settlement → Option Settlement
find_settlement org key [] = none
find_settlement org key (s ∷ ss) =
    if is_funding org key s then some s else find_settlement org key ss

-- An update of the settlement that was loaded.
unfoldable pub update_settlements :
    String → String → (Settlement → Settlement) → List Settlement → List Settlement
update_settlements org key patch [] = []
update_settlements org key patch (s ∷ ss) =
    (if is_funding org key s then patch s else s) ∷ update_settlements org key patch ss

abbrev pub with_status : SettlementStatus → Settlement → Settlement
with_status status s = record s { status = status }

-- `stellar:funding:collection:${id}`
unfoldable pub funding_key : String → String
funding_key id = String.◌++◌ "stellar:funding:collection:" id

-- `collection:${id}` and a suffix.
unfoldable pub collection_key : String → String → String
collection_key id suffix = String.◌++◌ "collection:" (String.◌++◌ id suffix)

abbrev pub release_params : Settlement → LedgerWriteParams
release_params s = record {
  org_id = s.org_id;
  environment = s.environment;
  amount = s.amount;
  asset = none;
  idempotency_key = collection_key s.collection_id ":available";
  movement_type = some "collection_credit";
  reference = some s.collection_id;
  reference_type = some "collection";
  reference_id = some s.collection_id;
}

-- `confirmCollectionFunding`: the settlement is confirmed before the pending credit is released.
unfoldable pub confirm_collection_funding : Settlement → String → Desk → Outcome × Desk
confirm_collection_funding s hash d =
    let settlements =
      update_settlements s.org_id s.idempotency_key
        (λ x. record x { status = confirmed; external_reference = some hash }) d.settlements in
    let ledger = d.books.ledger in
    let (released, db) = release_pending_to_available (release_params s) ledger.movements ledger in
    elim released [
      | Types.err e ↦ (
        threw (release_error e),
        record d { settlements = settlements; books = record d.books { ledger = db } },
      )
      | Types.ok posted ↦ (
        reached confirmed,
        record d {
          settlements = settlements;
          books = record {
            ledger = db;
            txs = update_txs s.collection_id (λ r. record r { status = "settled" }) d.books.txs;
          };
        },
      )
    ]

-- A submission that has gone through: it is confirmed if it is final or can be verified.
unfoldable pub settle_submission : Settlement → Submission → Bool → Desk → Outcome × Desk
settle_submission s sub verified d =
    let sent : Desk = record d {
      settlements =
          update_settlements s.org_id s.idempotency_key
            (λ x. record x { status = submitted; external_reference = some sub.transaction_hash })
            d.settlements;
      payments =
          record {
            org_id = s.org_id;
            idempotency_key = s.idempotency_key;
            transaction_hash = sub.transaction_hash;
          }
          ∷ d.payments;
    } in
    if sub.is_final || verified
    then confirm_collection_funding s sub.transaction_hash sent
    else (reached submitted, sent)

-- `submitUsdcPayment` and what follows it.
unfoldable pub submit_funding : Settlement → Network → Desk → Outcome × Desk
submit_funding s net d = elim net.payment [
  | none ↦ (
    threw funding_failed,
    record d {
      settlements =
          update_settlements s.org_id s.idempotency_key (with_status failed) d.settlements;
    },
  )
  | some sub ↦ settle_submission s sub net.verified d
]

-- The settlement that is there, or the one that is inserted with the status.
unfoldable pub ensure_settlement : SettlementStatus → Settlement → Desk → Settlement × Desk
ensure_settlement status fresh d =
    elim (find_settlement fresh.org_id fresh.idempotency_key d.settlements) [
      | some s ↦ (s, d)
      | none ↦ (
        with_status status fresh,
        record d { settlements = with_status status fresh ∷ d.settlements },
      )
    ]

-- The treasury has too little: the settlement waits.
unfoldable pub await_treasury : Settlement → Desk → Outcome × Desk
await_treasury fresh d =
    let (s, inserted) = ensure_settlement pending_treasury fresh d in
    (
      reached pending_treasury,
      record inserted {
        settlements =
            update_settlements s.org_id s.idempotency_key (with_status pending_treasury)
              inserted.settlements;
      },
    )

unfoldable pub pay_collection : Settlement → Network → Desk → Outcome × Desk
pay_collection fresh net d =
    let (s, inserted) = ensure_settlement pending fresh d in submit_funding s net inserted

-- Whether the balance and 10^-7 do not make up the amount.
abbrev pub too_little : ℕ → JsNumber → Bool
too_little balance (finite (pos n)) = ltb (balance + sub_units) n
too_little balance other = false

-- The checks before a payment; only the live mode has any.
unfoldable pub check_treasury : FundingMode → Settlement → Network → Desk → Outcome × Desk
check_treasury off fresh net d = pay_collection fresh net d
check_treasury mock fresh net d = pay_collection fresh net d
check_treasury live fresh net d =
    if not net.is_testnet
    then (threw mainnet_blocked, d)
    else if not net.has_secret
    then (threw missing_treasury_secret, d)
    else elim net.treasury [
      | none ↦ (threw treasury_balance_unknown, d)
      | some balance ↦
          if too_little balance fresh.amount
          then await_treasury fresh d
          else pay_collection fresh net d
    ]

unfoldable pub with_wallet : FundingMode → Settlement → Network → Desk → Outcome × Desk
with_wallet mode fresh net d = elim net.wallet [
  | active_wallet key ↦ check_treasury mode fresh net d
  | provision_failed ↦ (threw wallet_provision_failed, d)
  | wallet_not_active ↦ (threw not_active, d)
]

-- What a settlement that is there already answers at once.
unfoldable pub answered : Settlement → Option Outcome
answered s = elim s.status [
  | confirmed ↦ elim s.external_reference [ some hash ↦ some (reached confirmed) | none ↦ none ]
  | pending_treasury ↦ some (reached pending_treasury)
  | pending ↦ none
  | submitted ↦ none
  | failed ↦ none
]

abbrev pub fresh_settlement : String → String → String → JsNumber → Settlement
fresh_settlement org env id amount = record {
  org_id = org;
  idempotency_key = funding_key id;
  environment = as_env env;
  collection_id = id;
  amount = amount;
  status = pending;
  external_reference = none;
}

-- `fundCollectionStellarWallet`, once the mode is not off and the amount is valid.
unfoldable pub fund_amount : FundingMode → Settlement → Network → Desk → Outcome × Desk
fund_amount mode fresh net d =
    elim (find_settlement fresh.org_id fresh.idempotency_key d.settlements) [
      | none ↦ with_wallet mode fresh net d
      | some s ↦ elim (answered s) [ some out ↦ (out, d) | none ↦ with_wallet mode fresh net d ]
    ]

abbrev pub is_off : FundingMode → Bool
is_off off = true
is_off mock = false
is_off live = false

unfoldable pub fund_collection_stellar_wallet :
    FundingMode → Network → String → String → String → JsNumber → Desk → Outcome × Desk
fund_collection_stellar_wallet mode net org env id usdc d =
    if is_off mode then (skipped, d) else elim (positive (round7 usdc)) [
      | none ↦ (threw invalid_amount, d)
      | some amount ↦ fund_amount mode (fresh_settlement org env id amount) net d
    ]

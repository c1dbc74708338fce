-- ===== src/Transfers/Types.antt =====
-- The tables of an internal transfer, its errors, and statements inside one database transaction.
use dayfi_backend.Base.{
  ℕ, String, Bool, false, ◌&&◌, Option, none, some, List, [], ◌∷◌, str_eq, if◌then◌else◌,
}
use dayfi_backend.Ledger.Types.{LedgerMovement, LedgerError}
use dayfi_backend.Ledger
use dayfi_backend.Ledger.Store.{Db, Tx}

-- A row of `infra_internal_transfers`; amounts count minor units.
pub record TransferRow : Type 0 where
  pub id : String
  pub sender_org_id : String
  pub recipient_org_id : String
  pub environment : String
  pub amount : ℕ
  pub sender_transaction_id : Option String
  pub recipient_transaction_id : Option String
  pub sender_movement : Option LedgerMovement
  pub recipient_movement : Option LedgerMovement
  pub idempotency_key : Option String
  pub request_fingerprint : Option String
  pub fee_id : Option String

-- A row of `infra_transactions`, as a transfer inserts it.
pub record TxEntry : Type 0 where
  pub id : String
  pub org_id : String
  pub environment : String
  pub amount : ℕ
  pub fee : ℕ
  pub client_idempotency_key : Option String

-- A row of `infra_transaction_fees`.
pub record FeeRow : Type 0 where
  pub id : String
  pub org_id : String
  pub environment : String
  pub transfer_group_id : String
  pub transaction_id : String
  pub amount : ℕ
  pub transfer_amount : ℕ
  pub revenue_org_id : String
  pub idempotency_key : String
  pub fee_movement : Option LedgerMovement
  pub revenue_movement : Option LedgerMovement

pub record Tables : Type 0 where
  pub ledger : Db
  pub transfers : List TransferRow
  pub entries : List TxEntry
  pub fees : List FeeRow

-- The codes of `InfraTransferError`, `InfraMoneyError` and `InfraFeeError`, an error of the ledger, and
-- a unique violation that is thrown on.
pub data TransferError : Type 0 where
  invalid_amount unsupported_asset cross_environment unknown_recipient recipient_required :
      TransferError
  self_transfer idempotency_required idempotency_conflict unique_violation : TransferError
  ledger_error : LedgerError → TransferError

pub data Result (A : Type 0) : Type 0 where
  ok : A → Result A
  err : TransferError → Result A

abbrev pub from_ledger : LedgerError → TransferError
from_ledger Ledger.Types.unique_violation = unique_violation
from_ledger e = ledger_error e

-- A statement sequence inside a database transaction; an error leaves no tables.
abbrev pub Step : Type 0 → Type 0
Step A = Tables → Result (A × Tables)

infixl 5 ◌>>=◌
abbrev pub ◌>>=◌ : {A B : Type 0} → Step A → (A → Step B) → Step B
◌>>=◌ m f t = elim (m t) [ ok (a, t') ↦ f a t' | err e ↦ err e ]

abbrev pub pure : {A : Type 0} → A → Step A
pure a t = ok (a, t)

-- A call of the ledger inside the transaction, whose look-ups see the movements as they are.
unfoldable pub on_ledger : {A : Type 0} → (List LedgerMovement → Tx A) → Step A
on_ledger body t = elim (body t.ledger.movements t.ledger) [
  | Ledger.Types.ok (a, db) ↦ ok (a, record t { ledger = db })
  | Ledger.Types.err e ↦ err (from_ledger e)
]

-- `db.tx(body)`: commit on success, roll back on an error.
abbrev pub commit : {A : Type 0} → Step A → Tables → Result A × Tables
commit body t = elim (body t) [ ok (a, t') ↦ (ok a, t') | err e ↦ (err e, t) ]

-- `asEnv`
abbrev pub as_env : String → String
as_env env = if str_eq env "live" then "live" else "test"

-- Whether a nullable key is there and is this one.
abbrev pub is_key : Option String → String → Bool
is_key none key = false
is_key (some k) key = str_eq k key

abbrev pub is_request : String → String → String → TransferRow → Bool
is_request org env key r =
    str_eq org r.sender_org_id && str_eq env r.environment && is_key r.idempotency_key key

-- `loadTransferByIdempotency`
unfoldable pub find_transfer : String → String → String → List TransferRow → Option TransferRow
find_transfer org env key [] = none
find_transfer org env key (r ∷ rs) =
    if is_request org env key r then some r else find_transfer org env key rs

unfoldable pub find_entry : String → String → String → List TxEntry → Option TxEntry
find_entry org env key [] = none
find_entry org env key (e ∷ es) =
    if str_eq org e.org_id && str_eq env e.environment && is_key e.client_idempotency_key key
    then some e
    else find_entry org env key es

unfoldable pub find_fee : String → List FeeRow → Option FeeRow
find_fee key [] = none
find_fee key (f ∷ fs) = if str_eq key f.idempotency_key then some f else find_fee key fs

-- The insert, with the unique index on (sender_org_id, environment, idempotency_key).
unfoldable pub insert_transfer : TransferRow → Step TransferRow
insert_transfer r t = elim r.idempotency_key [
  | none ↦ ok (r, record t { transfers = r ∷ t.transfers })
  | some key ↦ elim (find_transfer r.sender_org_id r.environment key t.transfers) [
    | some rival ↦ err unique_violation
    | none ↦ ok (r, record t { transfers = r ∷ t.transfers })
  ]
]

-- The insert, with the unique index on (org_id, environment, client_idempotency_key).
unfoldable pub insert_entry : TxEntry → Step TxEntry
insert_entry e t = elim e.client_idempotency_key [
  | none ↦ ok (e, record t { entries = e ∷ t.entries })
  | some key ↦ elim (find_entry e.org_id e.environment key t.entries) [
    | some rival ↦ err unique_violation
    | none ↦ ok (e, record t { entries = e ∷ t.entries })
  ]
]

-- Calls outside a transaction: what has been committed stays, also after an error.
abbrev pub Call : Type 0 → Type 0
Call A = Tables → Result A × Tables

abbrev pub then_call : {A B : Type 0} → Call A → (A → Call B) → Call B
then_call m f t = let (r, t') = m t in elim r [ ok a ↦ f a t' | err e ↦ (err e, t') ]

abbrev pub answer : {A : Type 0} → Result A → Call A
answer r t = (r, t)

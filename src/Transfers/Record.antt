-- ===== src/Transfers/Record.antt =====
-- The transaction of `createInternalTransfer`, with `recordTransferFee` of infraFeeService.ts.
use Prim.Native.String
use dayfi_backend.Base.{
  ℕ, ◌*◌, String, Bool, Option, none, some, List, [], ◌∷◌, str_eq, if◌then◌else◌,
}
use dayfi_backend.Base.Int.{pos}
use dayfi_backend.Ledger.Types.{JsNumber, finite, sub_units, LedgerMovement}
use dayfi_backend.Ledger.Transfer.{TransferParams, TransferResult, transfer_run}
use dayfi_backend.Ledger.Fee.{FeeParams, apply_dayfi_transaction_fee}
use dayfi_backend.Transfers.Types.{
  TransferRow, TxEntry, FeeRow, Step, ◌>>=◌, pure, ok, on_ledger, insert_transfer, insert_entry,
  find_fee,
}

-- A transfer that has passed the checks, with the ids that are drawn for it. The texts of amounts are
-- given by the minor units that they spell.
pub record Order : Type 0 where
  pub transfer_group_id : String
  pub sender_org_id : String
  pub recipient_org_id : String
  pub environment : String
  pub amount : ℕ
  pub fee : ℕ
  pub fee_charged : Bool
  pub idem : Option String
  pub fingerprint : String
  pub sender_transaction_id : String
  pub recipient_transaction_id : String
  pub fee_id : String
  pub revenue_org_id : String

-- `idem || transferGroupId`, where `idem` is not empty if it is there.
abbrev pub key_of : Order → String
key_of o = elim o.idem [ some key ↦ key | none ↦ o.transfer_group_id ]

-- `internal_transfer:${key}` and a suffix.
unfoldable pub transfer_key : String → String → String
transfer_key key suffix = String.◌++◌ "internal_transfer:" (String.◌++◌ key suffix)

-- `transfer:${key}:fee`
unfoldable pub fee_key : String → String
fee_key key = String.◌++◌ "transfer:" (String.◌++◌ key ":fee")

abbrev pub number_of : ℕ → JsNumber
number_of minor = finite (pos (minor * sub_units))

abbrev pub client_key : Option String → String → Option String
client_key none suffix = none
client_key (some key) suffix = some (String.◌++◌ key suffix)

abbrev pub transfer_row : Order → TransferRow
transfer_row o = record {
  id = o.transfer_group_id;
  sender_org_id = o.sender_org_id;
  recipient_org_id = o.recipient_org_id;
  environment = o.environment;
  amount = o.amount;
  sender_transaction_id = none;
  recipient_transaction_id = none;
  sender_movement = none;
  recipient_movement = none;
  idempotency_key = o.idem;
  request_fingerprint = some o.fingerprint;
  fee_id = none;
}

abbrev pub sender_entry : Order → TxEntry
sender_entry o = record {
  id = o.sender_transaction_id;
  org_id = o.sender_org_id;
  environment = o.environment;
  amount = o.amount;
  fee = if o.fee_charged then o.fee else 0;
  client_idempotency_key = client_key o.idem ":out";
}

abbrev pub recipient_entry : Order → TxEntry
recipient_entry o = record {
  id = o.recipient_transaction_id;
  org_id = o.recipient_org_id;
  environment = o.environment;
  amount = o.amount;
  fee = 0;
  client_idempotency_key = client_key o.idem ":in";
}

abbrev pub transfer_params : Order → TransferParams
transfer_params o = record {
  sender_org_id = o.sender_org_id;
  recipient_org_id = o.recipient_org_id;
  environment = o.environment;
  amount = number_of o.amount;
  asset = some "USDC";
  transfer_group_id = o.transfer_group_id;
  debit_idempotency_key = transfer_key (key_of o) ":debit";
  credit_idempotency_key = transfer_key (key_of o) ":credit";
  sender_reference_id = o.sender_transaction_id;
  recipient_reference_id = o.recipient_transaction_id;
}

abbrev pub fee_params : Order → FeeParams
fee_params o = record {
  payer_org_id = o.sender_org_id;
  revenue_org_id = o.revenue_org_id;
  environment = o.environment;
  amount = number_of o.fee;
  transfer_group_id = o.transfer_group_id;
  payer_reference_id = o.sender_transaction_id;
  revenue_reference_id = o.fee_id;
  debit_idempotency_key = String.◌++◌ (fee_key (key_of o)) ":debit";
  credit_idempotency_key = String.◌++◌ (fee_key (key_of o)) ":revenue";
}

abbrev pub fee_row : Order → FeeRow
fee_row o = record {
  id = o.fee_id;
  org_id = o.sender_org_id;
  environment = o.environment;
  transfer_group_id = o.transfer_group_id;
  transaction_id = o.sender_transaction_id;
  amount = o.fee;
  transfer_amount = o.amount;
  revenue_org_id = o.revenue_org_id;
  idempotency_key = fee_key (key_of o);
  fee_movement = none;
  revenue_movement = none;
}

abbrev pub insert_fee : FeeRow → Step (Unit {0})
insert_fee f t = ok (tt, record t { fees = f ∷ t.fees })

-- `UPDATE infra_transaction_fees SET … WHERE id = $1`
unfoldable pub set_fee_movements :
    String → LedgerMovement → LedgerMovement → List FeeRow → List FeeRow
set_fee_movements id fee revenue [] = []
set_fee_movements id fee revenue (f ∷ fs) =
    (if str_eq id f.id
      then record f { fee_movement = some fee; revenue_movement = some revenue }
      else f)
    ∷ set_fee_movements id fee revenue fs

abbrev pub update_fee : String → Option TransferResult → Step (Unit {0})
update_fee id none t = ok (tt, t)
update_fee id (some r) t =
    ok (tt, record t { fees = set_fee_movements id r.debit_movement r.credit_movement t.fees })

-- A fee that has not been recorded.
unfoldable pub post_new_fee : Order → Step (Option String)
post_new_fee o = do
  inserted ← insert_fee (fee_row o)
  posted ← on_ledger (apply_dayfi_transaction_fee (fee_params o))
  updated ← update_fee o.fee_id posted
  pure (some o.fee_id)

-- `recordTransferFee`: the id of the fee, if one is charged.
unfoldable pub record_transfer_fee : Order → Step (Option String)
record_transfer_fee o t =
    if o.fee_charged
    then elim (find_fee (fee_key (key_of o)) t.fees) [
      | some f ↦ ok (some f.id, t)
      | none ↦ post_new_fee o t
    ]
    else ok (none, t)

abbrev pub completed_row : Order → TransferResult → Option String → TransferRow → TransferRow
completed_row o ledger fee_id r = record r {
  sender_transaction_id = some o.sender_transaction_id;
  recipient_transaction_id = some o.recipient_transaction_id;
  sender_movement = some ledger.debit_movement;
  recipient_movement = some ledger.credit_movement;
  fee_id = fee_id;
}

-- `UPDATE infra_internal_transfers SET … WHERE id = $1`
unfoldable pub update_rows :
    String → (TransferRow → TransferRow) → List TransferRow → List TransferRow
update_rows id patch [] = []
update_rows id patch (r ∷ rs) = (if str_eq id r.id then patch r else r) ∷ update_rows id patch rs

abbrev pub update_transfer : TransferRow → (TransferRow → TransferRow) → Step TransferRow
update_transfer r patch t =
    ok (patch r, record t { transfers = update_rows r.id patch t.transfers })

-- The body of `db.tx`.
unfoldable pub record_transfer : Order → Step TransferRow
record_transfer o = do
  transfer ← insert_transfer (transfer_row o)
  sent ← insert_entry (sender_entry o)
  received ← insert_entry (recipient_entry o)
  ledger ← on_ledger (transfer_run (transfer_params o))
  recorded_fee ← record_transfer_fee o
  update_transfer transfer (completed_row o ledger recorded_fee)

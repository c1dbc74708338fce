-- ===== src/Transfers/Create.antt =====
-- `createInternalTransfer`, for the settlement mode INTERNAL_LEDGER.
use dayfi_backend.Base.{
  ℕ, ◌+◌, String, Bool, true, false, ◌||◌, not, Option, none, some, or_else, or_null, trim,
  to_lower, to_upper, str_eq, ltb, if◌then◌else◌,
}
use dayfi_backend.Base.Int.{ℤ, pos, negsuc}
use dayfi_backend.Amount.{RawAmount, parse_usdc_to_minor}
use dayfi_backend.Amount
use dayfi_backend.FeeQuote.{configured_fee_usdc_minor}
use dayfi_backend.Ledger.Types.{Balances, insufficient_balance}
use dayfi_backend.Ledger.Balance.{get_org_balance}
use dayfi_backend.Transfers.Types.{
  TransferRow, TransferError, invalid_amount, unsupported_asset, cross_environment, self_transfer,
  idempotency_required, idempotency_conflict, unique_violation, ledger_error, Result, ok, err,
  commit, on_ledger, as_env, find_transfer, Call, then_call, answer,
}
use dayfi_backend.Transfers.Recipient.{Directory, resolve_recipient_org_id}
use dayfi_backend.Transfers.Record.{Order, record_transfer}

-- The settings that are read, and the organization that receives the fees.
pub record Settings : Type 0 where
  pub internal_transfer_fee : Option String
  pub transaction_fee_usdc : Option String
  pub revenue_org_id : String

-- The ids that are drawn at random or by the database.
pub record Drawn : Type 0 where
  pub transfer_group_id : String
  pub sender_transaction_id : String
  pub recipient_transaction_id : String
  pub fee_id : String

pub record Request : Type 0 where
  pub sender_org_id : String
  pub environment : Option String
  pub amount : RawAmount
  pub recipient_org_id : Option String
  pub recipient_environment : Option String
  pub dayfi_tag : Option String
  pub idempotency_key : Option String
  pub asset : Option String

-- What the checks of a request find out.
pub record Checked : Type 0 where
  pub env : String
  pub amount : ℕ
  pub recipient : String

pub record Presented : Type 0 where
  pub transfer : TransferRow
  pub duplicate : Bool
  pub sender_balance : Balances
  pub recipient_balance : Balances

-- `isInternalTransferFeeEnabled`
unfoldable pub is_internal_transfer_fee_enabled : Option String → Bool
is_internal_transfer_fee_enabled setting =
    let raw = to_lower (trim (or_else setting "")) in
    str_eq raw "on" || str_eq raw "true" || str_eq raw "1"

abbrev pub positive_minor : Amount.Result ℤ → Option ℕ
positive_minor Amount.invalid_amount = none
positive_minor (Amount.ok (negsuc n)) = none
positive_minor (Amount.ok (pos n)) = if ltb 0 n then some n else none

abbrev pub crosses : Option String → String → Bool
crosses other env = elim (or_null other) [ none ↦ false | some e ↦ not (str_eq (as_env e) env) ]

-- The checks before anything is read of the ledger.
unfoldable pub check_request : Directory → Request → Result Checked
check_request dir q = elim (positive_minor (parse_usdc_to_minor q.amount)) [
  | none ↦ err invalid_amount
  | some amount ↦
      let env = as_env (or_else q.environment "test") in
      if not (str_eq (or_else (some (to_upper (trim (or_else q.asset "USDC")))) "USDC") "USDC")
      then err unsupported_asset
      else if crosses q.recipient_environment env
      then err cross_environment
      else elim (resolve_recipient_org_id dir q.recipient_org_id q.dayfi_tag) [
        | err e ↦ err e
        | ok recipient ↦
            if str_eq recipient q.sender_org_id
            then err self_transfer
            else ok (record { env = env; amount = amount; recipient = recipient })
      ]
]

abbrev pub minor_of : ℤ → ℕ
minor_of (pos n) = n
minor_of (negsuc n) = 0

-- The fee that the quote names.
unfoldable pub fee_of : Settings → ℕ
fee_of s =
    if is_internal_transfer_fee_enabled s.internal_transfer_fee
    then minor_of (configured_fee_usdc_minor s.transaction_fee_usdc)
    else 0

unfoldable pub read_balance : String → String → Call Balances
read_balance org env = commit (on_ledger (λ seen. get_org_balance org env none))

abbrev pub covers : ℕ → Balances → Call (Unit {0})
covers needed b =
    answer (if ltb b.available needed then err (ledger_error insufficient_balance) else ok tt)

-- `assertCustomerCanPay`, if a fee is charged.
unfoldable pub assert_can_pay : String → Checked → ℕ → Call (Unit {0})
assert_can_pay sender c fee =
    if ltb 0 fee
    then then_call (read_balance sender c.env) (covers (c.amount + fee))
    else answer (ok tt)

abbrev pub presented : Bool → TransferRow → Balances → Balances → Call Presented
presented duplicate row s r = answer (
    ok
      (record { transfer = row; duplicate = duplicate; sender_balance = s; recipient_balance = r }))

abbrev pub present_recipient : Bool → TransferRow → Balances → Call Presented
present_recipient duplicate row s =
    then_call (read_balance row.recipient_org_id row.environment) (presented duplicate row s)

-- `presentTransfer`, after both balances have been read.
unfoldable pub present : Bool → TransferRow → Call Presented
present duplicate row =
    then_call (read_balance row.sender_org_id row.environment) (present_recipient duplicate row)

abbrev pub differs : Option String → String → Bool
differs stored fingerprint = elim (or_null stored) [
  | none ↦ false
  | some f ↦ not (str_eq f fingerprint)
]

-- A transfer that is there already.
unfoldable pub present_existing : String → TransferRow → Call Presented
present_existing fingerprint row =
    if differs row.request_fingerprint fingerprint
    then answer (err idempotency_conflict)
    else present true row

-- The `catch` block: a unique violation may be a transfer that another request has recorded.
unfoldable pub recover : Order → TransferError → Call Presented
recover o e t = elim e [
  | unique_violation ↦ elim o.idem [
    | none ↦ (err unique_violation, t)
    | some key ↦ elim (find_transfer o.sender_org_id o.environment key t.transfers) [
      | none ↦ (err unique_violation, t)
      | some row ↦ present_existing o.fingerprint row t
    ]
  ]
  | other ↦ (err other, t)
]

unfoldable pub execute : Order → Call Presented
execute o t =
    let (r, t') = commit (record_transfer o) t in
    elim r [ ok row ↦ present false row t' | err e ↦ recover o e t' ]

-- `String(input.idempotencyKey || '').trim() || null`
abbrev pub idem_of : Option String → Option String
idem_of key = or_null (some (trim (or_else key "")))

abbrev pub order_of : Settings → Drawn → String → Checked → Option String → String → Order
order_of s drawn sender c idem fingerprint = record {
  transfer_group_id = drawn.transfer_group_id;
  sender_org_id = sender;
  recipient_org_id = c.recipient;
  environment = c.env;
  amount = c.amount;
  fee = fee_of s;
  fee_charged = ltb 0 (fee_of s);
  idem = idem;
  fingerprint = fingerprint;
  sender_transaction_id = drawn.sender_transaction_id;
  recipient_transaction_id = drawn.recipient_transaction_id;
  fee_id = drawn.fee_id;
  revenue_org_id = s.revenue_org_id;
}

-- The idempotency look-up, and the transfer if there is none.
unfoldable pub place_order : Order → Call Presented
place_order o t = elim o.idem [
  | none ↦ execute o t
  | some key ↦ elim (find_transfer o.sender_org_id o.environment key t.transfers) [
    | some row ↦ present_existing o.fingerprint row t
    | none ↦ execute o t
  ]
]

-- A key is required on live.
abbrev pub needs_key : String → Option String → Bool
needs_key env none = str_eq env "live"
needs_key env (some key) = false

abbrev pub proceed : Order → Unit {0} → Call Presented
proceed o can_pay =
    if needs_key o.environment o.idem then answer (err idempotency_required) else place_order o

-- `digest` is the hash of the amount, the environment and the recipient.
module _ (digest : ℕ → String → String → String) where
  abbrev pub order_for : Settings → Drawn → Request → Checked → Order
  order_for s drawn q c =
      order_of s drawn q.sender_org_id c (idem_of q.idempotency_key)
        (digest c.amount c.env c.recipient)

  unfoldable pub create_internal_transfer : Settings → Directory → Drawn → Request → Call Presented
  create_internal_transfer s dir drawn q t = elim (check_request dir q) [
    | err e ↦ (err e, t)
    | ok c ↦
        then_call (assert_can_pay q.sender_org_id c (fee_of s)) (proceed (order_for s drawn q c)) t
  ]

-- ===== src/Transfers/Tests.antt =====
-- Runs of createInternalTransfer, and the theorems at those inputs.
use dayfi_backend.Base.{
  ℕ, ◌≡◌, refl, arith, String, Bool, true, false, Option, some, none, [], ◌∷◌, trim, trim_start,
  trim_end, to_lower, to_upper, eq_iff, if◌then◌else◌,
}
use dayfi_backend.Base.Int.{pos}
use dayfi_backend.Amount.{bigint, parse_usdc_to_minor}
use dayfi_backend.Ledger.Types.{
  finite, LedgerMovement, LedgerWriteParams, parse_amount, normalize_env, normalize_asset, same_id,
}
use dayfi_backend.Ledger.Store.{
  Db, find_movement, find_wallet, set_balances, wallet_id, ensure_wallet_account, lock_wallet_row,
  update_balances, insert_movement, has_event, same_event,
}
use dayfi_backend.Ledger.Write.{
  credit_org, ledger_write, post_movement, write_body, recover as ledger_recover, after_of,
  credit_after, default_type, direction_of,
}
use dayfi_backend.Ledger.Transfer.{transfer_run, transfer_seen, post_transfer, move_available}
use dayfi_backend.Ledger.Balance.{get_org_balance}
use dayfi_backend.Ledger.History.{empty_db}
use dayfi_backend.Transfers.Types.{
  TransferRow, Tables, Result, ok, err, on_ledger, find_transfer, find_entry, find_fee,
  insert_transfer, insert_entry,
}
use dayfi_backend.Transfers.Recipient.{
  Directory, matches, is_uuid, strip_at, org_exists, find_member, resolve_tag,
  resolve_recipient_org_id,
}
use dayfi_backend.Transfers.Record.{
  Order, record_transfer, record_transfer_fee, transfer_key, fee_key, update_rows,
}
use dayfi_backend.Transfers.Create.{
  Settings, Drawn, Request, Presented, check_request, fee_of, is_internal_transfer_fee_enabled,
  read_balance, assert_can_pay, present, present_existing, recover, execute, place_order,
  create_internal_transfer, idem_of,
}
use dayfi_backend.Transfers.Retry.{marks, transfer_retry}
use dayfi_backend.Transfers.Reused.{reused_key}
use dayfi_backend.Transfers.Money.{money, transfer_conserves}

abbrev org_a : String
org_a = "aaaaaaaa-aaaa-4aaa-8aaa-aaaaaaaaaaaa"

abbrev org_b : String
org_b = "bbbbbbbb-bbbb-4bbb-8bbb-bbbbbbbbbbbb"

abbrev org_c : String
org_c = "cccccccc-cccc-4ccc-8ccc-cccccccccccc"

abbrev org_d : String
org_d = "dddddddd-dddd-4ddd-8ddd-dddddddddddd"

abbrev dir : Directory
dir = record {
  organizations = org_a ∷ org_b ∷ org_c ∷ org_d ∷ [];
  members = record { dayfi_tag = "Bob"; org_id = some org_b } ∷ [];
}

abbrev settings : Settings
settings = record {
  internal_transfer_fee = none;
  transaction_fee_usdc = none;
  revenue_org_id = "R";
}

abbrev drawn : Drawn
drawn = record {
  transfer_group_id = "g1";
  sender_transaction_id = "s1";
  recipient_transaction_id = "r1";
  fee_id = "f1";
}

-- 2 USDC for the member whose tag is @Bob.
abbrev request : Request
request = record {
  sender_org_id = org_a;
  environment = some "live";
  amount = bigint (pos 20000000);
  recipient_org_id = none;
  recipient_environment = none;
  dayfi_tag = some "@BOB";
  idempotency_key = some " k1 ";
  asset = none;
}

abbrev digest : ℕ → String → String → String
digest amount env recipient = recipient

abbrev deposit : String → LedgerWriteParams
deposit org = record {
  org_id = org;
  environment = "live";
  amount = finite (pos 500000000000000);
  asset = none;
  idempotency_key = org;
  movement_type = none;
  reference = none;
  reference_type = none;
  reference_id = none;
}

abbrev funded : Db
funded =
    let one = (ledger_write credit_org (deposit org_a) [] empty_db).1 in
    (ledger_write credit_org (deposit org_c) one.movements one).1

abbrev start : Tables
start = record { ledger = funded; transfers = []; entries = []; fees = [] }

abbrev done : Result Presented × Tables
done = create_internal_transfer digest settings dir drawn request start

unfoldable opened : String
unfolding ledger_write parse_amount write_body post_movement ensure_wallet_account lock_wallet_row
    update_balances insert_movement find_movement find_wallet set_balances wallet_id normalize_env
    normalize_asset same_id after_of credit_after ledger_recover has_event same_event trim
    trim_start trim_end to_lower to_upper default_type direction_of transfer_run transfer_seen
    post_transfer move_available get_org_balance on_ledger find_transfer find_entry find_fee
    insert_transfer insert_entry matches is_uuid strip_at org_exists find_member resolve_tag
    resolve_recipient_org_id record_transfer record_transfer_fee transfer_key fee_key update_rows
    check_request fee_of is_internal_transfer_fee_enabled read_balance assert_can_pay present
    present_existing recover execute place_order create_internal_transfer parse_usdc_to_minor
opened = ""

abbrev is_new : Result Presented → Bool
is_new (err e) = false
is_new (ok p) = if p.duplicate then false else true

first_is_new : is_new done.0 ≡ true
unfolding opened
first_is_new = refl

abbrev is_ok : Result Presented → Bool
is_ok (ok p) = true
is_ok (err e) = false

abbrev is_leg : Option LedgerMovement → Bool
is_leg none = false
is_leg (some m) = true

-- The answer of a call that succeeds.
abbrev answer_of : (r : Result Presented) → is_ok r ≡ true → Presented
answer_of (ok p) h = p
answer_of (err e) h = absurd (ground arith)

first_is_ok : is_ok done.0 ≡ true
unfolding opened
first_is_ok = refl

-- The same key, for another amount to another recipient.
abbrev other_request : Request
other_request = record request { amount = bigint (pos 10000000); recipient_org_id = some org_d }

abbrev first : Presented
first = answer_of done.0 first_is_ok

done_answers : done ≡ (ok first, done.1)
unfolding opened first_is_ok
done_answers = refl

request_keyed : idem_of request.idempotency_key ≡ some "k1"
unfolding opened
request_keyed = refl

transfer_retry_example :
    marks (create_internal_transfer digest settings dir drawn other_request done.1).1 ≡ marks done.1
transfer_retry_example =
    transfer_retry digest settings settings dir dir drawn drawn request other_request "k1" start
      first done.1 done_answers request_keyed request_keyed refl refl

transfer_conserves_example : money done.1 ≡ money start
transfer_conserves_example =
    transfer_conserves digest settings dir drawn request start
      (λ e. ground (arith, eq_iff org_a "R"))

-- Organization C sends 1 USDC to organization D under the key that organization A has used.
abbrev reusing : Order
reusing = record {
  transfer_group_id = "g2";
  sender_org_id = org_c;
  recipient_org_id = org_d;
  environment = "live";
  amount = 10000000;
  fee = 0;
  fee_charged = false;
  idem = some "k1";
  fingerprint = "F";
  sender_transaction_id = "s2";
  recipient_transaction_id = "r2";
  fee_id = "f2";
  revenue_org_id = "R";
}

abbrev leg_of : (m : Option LedgerMovement) → is_leg m ≡ true → LedgerMovement
leg_of (some m) h = m
leg_of none h = absurd (ground arith)

debit_there : is_leg (find_movement (transfer_key "k1" ":debit") done.1.ledger.movements) ≡ true
unfolding opened
debit_there = refl

credit_there : is_leg (find_movement (transfer_key "k1" ":credit") done.1.ledger.movements) ≡ true
unfolding opened
credit_there = refl

abbrev debit_leg : LedgerMovement
debit_leg = leg_of (find_movement (transfer_key "k1" ":debit") done.1.ledger.movements) debit_there

abbrev credit_leg : LedgerMovement
credit_leg =
    leg_of (find_movement (transfer_key "k1" ":credit") done.1.ledger.movements) credit_there

reused_key_example :
    (r : TransferRow) × (t' : Tables) × (record_transfer reusing done.1 ≡ ok (r, t'))
    × (r.sender_movement ≡ some debit_leg)
    × (r.recipient_movement ≡ some credit_leg)
    × (t'.ledger ≡ done.1.ledger)
unfolding opened debit_there credit_there
reused_key_example =
    reused_key reusing "k1" debit_leg credit_leg done.1 refl refl refl
      (λ e. ground (arith, eq_iff org_c org_d)) refl refl refl refl refl

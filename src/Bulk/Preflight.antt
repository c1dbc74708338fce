-- ===== src/Bulk/Preflight.antt =====
-- `createBulkBatch` and `runPreflight`. The id of a batch and those of its items are drawn by the database,
-- and are arguments.
use dayfi_backend.Bulk.Quote.{DupKey, Quoting, checked_item, is_seen, item_quote, key_of_item}
use dayfi_backend.Base.{
  ℕ, ◌+◌, ◌*◌, String, Bool, true, false, ◌&&◌, ◌||◌, not, none, some, List, [], ◌∷◌, ◌++◌, length,
  ltb, or_else, or_null, to_upper, str_eq, if◌then◌else◌, is_null,
}
use dayfi_backend.Base.Int.{ℤ, pos, ◌+ℤ◌, ltb_ℤ}
use dayfi_backend.Ledger.Types.{Balances, finite, sub_units}
use dayfi_backend.Ledger.Store.{tx}
use dayfi_backend.Ledger.Balance.{get_org_balance}
use dayfi_backend.Lifecycle.Types.{Books, Result, ok, err, from_ledger, as_env, round7}
use dayfi_backend.Bulk.Csv.{no_items}
use dayfi_backend.Bulk.Batch.{
  BatchStatus, draft, validating, ready, processing, partially_completed, completed, failed,
  cancelled, item_pending, BulkItemInput, BatchRow, ItemRow, Bulk, empty_batch, batch_too_large,
  not_found, invalid_state, balance_error, BulkAnswer, refused, num, num_or_zero, find_batch,
  list_items, update_batches, set_status, show_batch, no_tally,
}

-- The loop over the items of the batch: the items checked, with the keys that were seen before.
unfoldable pub check_items : Quoting → Books → String → List DupKey → List ItemRow → List ItemRow
check_items v b env keys [] = []
check_items v b env keys (i ∷ is) =
    let key = key_of_item i (item_quote v b env i) in
    checked_item v b env i keys
    ∷ check_items v b env (if is_seen key keys then keys else key ∷ keys) is

-- `status === 'ready' && usdcAmount != null`
abbrev pub is_valid : ItemRow → Bool
is_valid i = no_items i.validation_errors && not (is_null i.usdc_amount)

abbrev pub usdc_of : ItemRow → ℤ
usdc_of i = num_or_zero i.usdc_amount

unfoldable pub total_of : List ItemRow → ℤ
total_of [] = pos 0
total_of (i ∷ is) = (if is_valid i then usdc_of i else pos 0) +ℤ total_of is

unfoldable pub all_valid : List ItemRow → Bool
all_valid [] = true
all_valid (i ∷ is) = is_valid i && all_valid is

unfoldable pub any_valid : List ItemRow → Bool
any_valid [] = false
any_valid (i ∷ is) = is_valid i || any_valid is

-- The rows of the table, with those of the batch replaced one by one.
unfoldable pub put_items : String → List ItemRow → List ItemRow → List ItemRow
put_items batch new [] = []
put_items batch [] (i ∷ is) = i ∷ put_items batch [] is
put_items batch (n ∷ ns) (i ∷ is) =
    if str_eq batch i.batch_id then n ∷ put_items batch ns is else i ∷ put_items batch (n ∷ ns) is

-- `balance.available + 1e-9 >= required`
abbrev pub suffices : Balances → ℤ → Bool
suffices balance required = not (ltb_ℤ (pos (balance.available * sub_units + 100000)) required)

abbrev pub required_of : List ItemRow → ℤ
required_of is = num (round7 (finite (total_of is)))

abbrev pub read_available : BatchRow → Books → Result Balances × Books
read_available b books =
    from_ledger books (tx (get_org_balance b.org_id (as_env b.environment) none) books.ledger)

-- The verdict on the batch, once its items are checked and the balance is read.
unfoldable pub give_verdict : String → String → List ItemRow → Balances → Bulk → BulkAnswer × Bulk
give_verdict org id checked balance d =
    let fine = all_valid checked && any_valid checked && suffices balance (required_of checked) in
    let d' = record d {
      batches =
          update_batches id
            (λ b. record b {
              status = if fine then ready else draft;
              total_usdc = required_of checked;
            })
            d.batches;
    } in
    (show_batch org id d', d')

abbrev pub can_preflight : BatchStatus → Bool
can_preflight draft = true
can_preflight validating = true
can_preflight ready = true
can_preflight processing = false
can_preflight partially_completed = false
can_preflight completed = false
can_preflight failed = false
can_preflight cancelled = false

-- The checks of a batch that may be checked. If the balance cannot be read, it is left as `validating`.
unfoldable pub preflight_batch : Quoting → String → String → BatchRow → Bulk → BulkAnswer × Bulk
preflight_batch v org id b d =
    let d1 = set_status id validating d in
    let checked = check_items v d.books b.environment [] (list_items id d.items) in
    let d2 = record d1 { items = put_items id checked d.items } in
    let (r, books) = read_available b d.books in
    let d3 = record d2 { books = books } in
    elim r [
      | err e ↦ (refused (balance_error e), d3)
      | ok balance ↦ give_verdict org id checked balance d3
    ]

-- `runPreflight`
unfoldable pub run_preflight : Quoting → String → String → Bulk → BulkAnswer × Bulk
run_preflight v org id d = elim (find_batch org id d.batches) [
  | none ↦ (refused not_found, d)
  | some b ↦
      if can_preflight b.status then preflight_batch v org id b d else (refused invalid_state, d)
]

unfoldable pub new_items : String → ℕ → List (String × BulkItemInput) → List ItemRow
new_items batch line [] = []
new_items batch line ((id, it) ∷ its) =
    record {
      id = id;
      batch_id = batch;
      line_number = line;
      recipient_id = or_null it.recipient_id;
      destination_id = or_null it.destination_id;
      amount = it.amount;
      currency = to_upper (or_else it.currency "USDC");
      usdc_amount = none;
      status = item_pending;
      validation_errors = [];
      payout_transaction_id = none;
    }
    ∷ new_items batch (line + 1) its

abbrev pub new_batch : String → String → String → ℕ → BatchRow
new_batch org env id count = record {
  id = id;
  org_id = org;
  environment = as_env env;
  status = draft;
  item_count = count;
  total_usdc = pos 0;
  tally = no_tally;
}

-- `createBulkBatch`
unfoldable pub create_bulk_batch :
    Quoting
    → String
    → String
    → Bool
    → String
    → List (String × BulkItemInput)
    → Bulk
    → BulkAnswer × Bulk
create_bulk_batch v org env check id its d =
    if no_items its
    then (refused empty_batch, d)
    else if ltb 2000 (length its)
    then (refused batch_too_large, d)
    else (let d' = record d {
      batches = d.batches ++ (new_batch org env id (length its) ∷ []);
      items = d.items ++ new_items id 1 its;
    } in
        if check then run_preflight v org id d' else (show_batch org id d', d'))

-- ===== src/Bulk/Tests.antt =====
-- Runs of infraBulkService.ts, and the theorems at those inputs.
use dayfi_backend.FeeQuote.{codes}
use dayfi_backend.Base.{
  ◌≡◌, refl, String, Bool, true, false, some, none, [], ◌∷◌, ◌++◌, ◌⊎◌, map, to_upper, to_lower,
}
use dayfi_backend.Base.Int.{pos, ◌+ℤ◌}
use dayfi_backend.Amount.{Text, trim_start, trim_end}
use dayfi_backend.Ledger.Types.{finite}
use dayfi_backend.Lifecycle.Types.{resolve_usdc_amount}
use dayfi_backend.Lifecycle.Payout.Tests.{start, reserved, opened}
use dayfi_backend.Lifecycle.Payout.History.{books}
use dayfi_backend.Bulk.Csv.{
  rows, failed, type_error, assign, fill_row, read_unit, read_text, csv_lines, split_unit,
  split_text, split_row, header_name, row_of, rows_of, table_of, parse_bulk_csv,
}
use dayfi_backend.Bulk.Csv.Plain.{Line}
use dayfi_backend.Bulk.Csv.RoundTrip.{csv_text}
use dayfi_backend.Bulk.Csv.Quotes.{quotes_lost}
use dayfi_backend.Bulk.Batch.{
  ready, item_ready, item_processing, no_tally, BulkItemInput, BatchRow, ItemRow, Bulk, find_batch,
  list_items, update_batches, update_items, find_child, tally_item, tally_items, roll_up,
  refresh_batch_aggregates,
}
use dayfi_backend.Bulk.Quote.{Quoting, quote_usdc, quote_item, is_seen, checked_item}
use dayfi_backend.Bulk.Preflight.{
  check_items, total_of, all_valid, any_valid, put_items, give_verdict, preflight_batch,
  run_preflight, new_items, create_bulk_batch,
}
use dayfi_backend.Bulk.Confirm.{
  Payouts, confirm_bulk_batch, confirm_ready, ready_items, sum_usdc, pay_batch, pay_items, pay_item,
  simulate_item, update_item, cancel_bulk_batch,
}
use dayfi_backend.Bulk.Final.{SameRows, confirm_once}
use dayfi_backend.Bulk.Refresh.{refresh-refresh}
use dayfi_backend.Bulk.Ready.{IsReady, preflight_ready}

abbrev head : Line
head = (codes "Recipient Id", codes "amount" ∷ [])

abbrev line : Line
line = (codes "r1", codes "10" ∷ [])

-- Opens all that the reading of a file computes with.
unfoldable csv : String
unfolding read_unit read_text csv_lines split_unit split_text split_row header_name assign fill_row
    row_of rows_of table_of parse_bulk_csv trim_start trim_end
csv = ""

-- The name of a column is in small letters, with a mark for the white space.
one_row :
    parse_bulk_csv (csv_text head (line ∷ []))
    ≡ rows (((codes "recipient_id", codes "r1") ∷ (codes "amount", codes "10") ∷ []) ∷ [])
unfolding csv
one_row = refl

-- Of two columns with one name, the last one counts.
repeated_name :
    parse_bulk_csv (codes "amount,amount" ++ (10 ∷ codes "1,2"))
    ≡ rows (((codes "amount", codes "2") ∷ []) ∷ [])
unfolding csv
repeated_name = refl

-- A text of empty quotes has no lines.
only_quotes : parse_bulk_csv (codes "\"\"") ≡ failed type_error
unfolding csv
only_quotes = refl

-- The name of a payee holds a comma, in quotes: it becomes two cells, and the amount is the second.
abbrev before_field : Text
before_field = codes "name,amount" ++ (10 ∷ [])

quoted_comma :
    parse_bulk_csv (before_field ++ codes "\"Doe, Jane\",10")
    ≡ rows (((codes "name", codes "Doe") ∷ (codes "amount", codes "Jane") ∷ []) ∷ [])
unfolding csv
quoted_comma = refl

quotes_lost_example :
    table_of (csv_lines (before_field ++ (b'"' ∷ (codes "Doe, Jane" ++ (b'"' ∷ codes ",10")))))
    ≡ table_of (csv_lines (before_field ++ (codes "Doe, Jane" ++ codes ",10")))
quotes_lost_example = quotes_lost before_field (codes "Doe, Jane") (codes ",10") refl refl refl

abbrev quoting : Quoting
quoting = record {
  resolve_destination = λ env i. some (record { id = "d1"; rail = "bank" });
  conversion = λ n c. none;
}

abbrev one_item : BulkItemInput
one_item = record {
  recipient_id = some "r1";
  destination_id = none;
  amount = finite (pos 100000000000000);
  currency = none;
}

-- The tables with 3 USDC available for organization A.
abbrev empty_bulk : Bulk
empty_bulk = record { batches = []; items = []; books = books reserved start }

abbrev drafted : Bulk
drafted = (create_bulk_batch quoting "A" "live" false "b1" (("i1", one_item) ∷ []) empty_bulk).1

-- Opens all that the checks of a batch compute with.
unfoldable checks : String
unfolding opened find_batch list_items update_batches update_items quote_usdc quote_item is_seen
    checked_item check_items total_of all_valid any_valid put_items give_verdict preflight_batch
    run_preflight new_items create_bulk_batch resolve_usdc_amount to_upper ◌+ℤ◌
checks = ""

-- The batch and its item, as they are shown.
abbrev ready_batch : BatchRow
ready_batch = record {
  id = "b1";
  org_id = "A";
  environment = "live";
  status = ready;
  item_count = 1;
  total_usdc = pos 100000000000000;
  tally = no_tally;
}

abbrev ready_item : ItemRow
ready_item = record {
  id = "i1";
  batch_id = "b1";
  line_number = 1;
  recipient_id = some "r1";
  destination_id = some "d1";
  amount = finite (pos 100000000000000);
  currency = "USDC";
  usdc_amount = some (finite (pos 100000000000000));
  status = item_ready;
  validation_errors = [];
  payout_transaction_id = none;
}

preflight_ready_example : IsReady "A" "b1" drafted ready_batch (ready_item ∷ [])
unfolding checks
preflight_ready_example =
    preflight_ready quoting "A" "b1" drafted ready_batch (ready_item ∷ []) refl refl

abbrev payouts : Payouts
payouts = record {
  create_payout = λ b i key books. (some (record { id = "p1"; usdc_amount = none }), books);
  simulate_settlement = λ id books. (true, books);
}

abbrev ready_bulk : Bulk
ready_bulk = record {
  batches = ready_batch ∷ [];
  items = ready_item ∷ [];
  books = books reserved start;
}

confirm_once_example :
    SameRows ready_bulk (confirm_bulk_batch payouts true "A" "b1" ready_bulk).1
    ⊎ (((w : Payouts) (again : Bool)
          → (confirm_bulk_batch w again "A" "b1"
              (confirm_bulk_batch payouts true "A" "b1" ready_bulk).1).1
            ≡ (confirm_bulk_batch payouts true "A" "b1" ready_bulk).1)
        × ((w : Quoting)
            → (run_preflight w "A" "b1" (confirm_bulk_batch payouts true "A" "b1" ready_bulk).1).1
              ≡ (confirm_bulk_batch payouts true "A" "b1" ready_bulk).1)
        × ((cancel_bulk_batch "A" "b1" (confirm_bulk_batch payouts true "A" "b1" ready_bulk).1).1
            ≡ (confirm_bulk_batch payouts true "A" "b1" ready_bulk).1))
confirm_once_example = confirm_once payouts true "A" "b1" ready_bulk

-- The item is being paid, by the payout that is locked.
abbrev paid_bulk : Bulk
paid_bulk = (confirm_bulk_batch payouts true "A" "b1" ready_bulk).1

paid_item : map (λ i. i.status) paid_bulk.items ≡ item_processing ∷ []
unfolding checks confirm_bulk_batch confirm_ready ready_items sum_usdc pay_batch pay_items pay_item
    simulate_item update_item refresh_batch_aggregates roll_up tally_items tally_item find_child
    to_lower
paid_item = refl

refresh-refresh_example :
    refresh_batch_aggregates "A" "b1" (refresh_batch_aggregates "A" "b1" paid_bulk).1
    ≡ refresh_batch_aggregates "A" "b1" paid_bulk
refresh-refresh_example = refresh-refresh "A" "b1" paid_bulk

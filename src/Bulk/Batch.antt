-- ===== src/Bulk/Batch.antt =====
-- Batches of payouts, and what is done about them. The payouts of the items are made by createPayout and
-- simulateSettlement of infraMoneyService.ts, which are arguments, as are the look-up of a recipient's
-- destination and the rates. Each statement commits on its own; times and metadata are left out.
use dayfi_backend.Base.{
  ℕ, ◌+◌, String, Bool, true, false, ◌&&◌, ◌||◌, not, Option, none, some, List, [], ◌∷◌, is_empty,
  ltb, ◌==◌, to_lower, str_eq, if◌then◌else◌,
}
use dayfi_backend.Base.Int.{ℤ, pos, ◌+ℤ◌}
use dayfi_backend.Ledger.Types.{JsNumber, not_finite, finite}
use dayfi_backend.Lifecycle.Types.{TxRow, Books, LifecycleError, find_tx}

pub data BatchStatus : Type 0 where
  draft validating ready processing partially_completed completed failed cancelled : BatchStatus

pub data ItemStatus : Type 0 where
  item_pending item_invalid item_ready item_processing item_completed item_failed item_cancelled :
      ItemStatus

pub data ItemError : Type 0 where
  recipient_required amount_required unsupported_rail no_quote unresolved duplicate_instruction :
      ItemError
  payout_failed : ItemError

pub record BulkItemInput : Type 0 where
  pub recipient_id : Option String
  pub destination_id : Option String
  pub amount : JsNumber
  pub currency : Option String

-- Money is counted in 10^-14.
pub record Tally : Type 0 where
  pub completed_usdc : ℤ
  pub released_usdc : ℤ
  pub locked_usdc : ℤ
  pub completed_count : ℕ
  pub failed_count : ℕ
  pub processing_count : ℕ

pub record BatchRow : Type 0 where
  pub id : String
  pub org_id : String
  pub environment : String
  pub status : BatchStatus
  pub item_count : ℕ
  pub total_usdc : ℤ
  pub tally : Tally

pub record ItemRow : Type 0 where
  pub id : String
  pub batch_id : String
  pub line_number : ℕ
  pub recipient_id : Option String
  pub destination_id : Option String
  pub amount : JsNumber
  pub currency : String
  pub usdc_amount : Option JsNumber
  pub status : ItemStatus
  pub validation_errors : List ItemError
  pub payout_transaction_id : Option String

pub record Bulk : Type 0 where
  pub batches : List BatchRow
  pub items : List ItemRow
  pub books : Books

pub data BulkError : Type 0 where
  empty_batch batch_too_large not_found invalid_state not_ready empty_ready insufficient_balance :
      BulkError
  balance_error : LifecycleError → BulkError

-- The batch that a call shows, or the error that it throws.
pub data BulkAnswer : Type 0 where
  shown : BatchRow → List ItemRow → BulkAnswer
  refused : BulkError → BulkAnswer

-- `num`
abbrev pub num : JsNumber → ℤ
num not_finite = pos 0
num (finite n) = n

abbrev pub num_or_zero : Option JsNumber → ℤ
num_or_zero (some n) = num n
num_or_zero none = pos 0

abbrev pub is_batch : String → String → BatchRow → Bool
is_batch org id b = str_eq id b.id && str_eq org b.org_id

-- `loadBatch`
unfoldable pub find_batch : String → String → List BatchRow → Option BatchRow
find_batch org id [] = none
find_batch org id (b ∷ bs) = if is_batch org id b then some b else find_batch org id bs

-- `listItems`: the rows stand in the order of their lines.
unfoldable pub list_items : String → List ItemRow → List ItemRow
list_items batch [] = []
list_items batch (i ∷ is) =
    let rest = list_items batch is in if str_eq batch i.batch_id then i ∷ rest else rest

unfoldable pub update_batches : String → (BatchRow → BatchRow) → List BatchRow → List BatchRow
update_batches id patch [] = []
update_batches id patch (b ∷ bs) =
    (if str_eq id b.id then patch b else b) ∷ update_batches id patch bs

-- An UPDATE of every item of a batch, by its id.
unfoldable pub update_items : String → (ItemRow → ItemRow) → List ItemRow → List ItemRow
update_items batch patch [] = []
update_items batch patch (i ∷ is) =
    (if str_eq batch i.batch_id then patch i else i) ∷ update_items batch patch is

abbrev pub set_status : String → BatchStatus → Bulk → Bulk
set_status id status d = record d {
  batches = update_batches id (λ b. record b { status = status }) d.batches;
}

-- `getBatchWithItems`
abbrev pub show_batch : String → String → Bulk → BulkAnswer
show_batch org id d = elim (find_batch org id d.batches) [
  | some b ↦ shown b (list_items id d.items)
  | none ↦ refused not_found
]

-- The child of an item: the row of `infra_transactions`, if the organization has it.
unfoldable pub find_child : String → String → List TxRow → Option TxRow
find_child org id txs = elim (find_tx id none txs) [
  | some r ↦ if str_eq org r.org_id then some r else none
  | none ↦ none
]

abbrev pub is_settled_status : String → Bool
is_settled_status st =
    str_eq st "settled" || str_eq st "completed" || str_eq st "success" || str_eq st "successful"

abbrev pub is_failed_status : String → Bool
is_failed_status st =
    str_eq st "failed" || str_eq st "cancelled" || str_eq st "expired" || str_eq st "rejected"

-- What an item has come to, by the status of its payout.
abbrev pub outcome_of : TxRow → ItemStatus
outcome_of r =
    let st = to_lower r.status in
    if is_settled_status st
    then item_completed
    else if is_failed_status st
    then item_failed
    else item_processing

-- The child of an item that is there.
abbrev pub child_of : String → List TxRow → ItemRow → Option TxRow
child_of org txs i = elim i.payout_transaction_id [
  | none ↦ none
  | some id ↦ if is_empty id then none else find_child org id txs
]

-- `tx.metadata?.usdcAmount ?? item.usdc_amount ?? 0`
abbrev pub child_usdc : TxRow → ItemRow → ℤ
child_usdc r i = elim r.usdc_amount [ some n ↦ num n | none ↦ num_or_zero i.usdc_amount ]

abbrev pub add_outcome : ItemStatus → ℤ → Tally → Tally
add_outcome item_completed usdc t = record t {
  completed_usdc = t.completed_usdc +ℤ usdc;
  completed_count = t.completed_count + 1;
}
add_outcome item_failed usdc t = record t {
  released_usdc = t.released_usdc +ℤ usdc;
  failed_count = t.failed_count + 1;
}
add_outcome other usdc t = record t {
  locked_usdc = t.locked_usdc +ℤ usdc;
  processing_count = t.processing_count + 1;
}

abbrev pub counts_as_failed : ItemRow → Bool
counts_as_failed i = elim i.status [ item_failed ↦ true | item_invalid ↦ true | other ↦ false ]

abbrev pub has_child_id : ItemRow → Bool
has_child_id i = elim i.payout_transaction_id [ none ↦ false | some id ↦ not (is_empty id) ]

-- One round of the loop over the items, for an item and its child.
abbrev pub tally_child : Option TxRow → ItemRow → Tally → Tally
tally_child (some r) i t = add_outcome (outcome_of r) (child_usdc r i) t
tally_child none i t =
    if not (has_child_id i) && counts_as_failed i
    then record t { failed_count = t.failed_count + 1 }
    else t

unfoldable pub tally_item : String → List TxRow → ItemRow → Tally → Tally
tally_item org txs i t = tally_child (child_of org txs i) i t

unfoldable pub tally_items : String → List TxRow → List ItemRow → Tally → Tally
tally_items org txs [] t = t
tally_items org txs (i ∷ is) t = tally_items org txs is (tally_item org txs i t)

abbrev pub no_tally : Tally
no_tally = record {
  completed_usdc = pos 0;
  released_usdc = pos 0;
  locked_usdc = pos 0;
  completed_count = 0;
  failed_count = 0;
  processing_count = 0;
}

abbrev pub parent_status : Tally → BatchStatus
parent_status t =
    if ltb 0 t.processing_count
    then processing
    else if ltb 0 t.completed_count && t.failed_count == 0
    then completed
    else if ltb 0 t.completed_count && ltb 0 t.failed_count
    then partially_completed
    else if t.completed_count == 0 && ltb 0 t.failed_count
    then failed
    else processing

-- An item takes the status of its child.
abbrev pub synced_with : Option TxRow → ItemRow → ItemRow
synced_with (some r) i = record i { status = outcome_of r }
synced_with none i = i

abbrev pub synced_item : String → List TxRow → ItemRow → ItemRow
synced_item org txs i = synced_with (child_of org txs i) i

abbrev pub is_cancelled : BatchStatus → Bool
is_cancelled status = elim status [ cancelled ↦ true | other ↦ false ]

-- The totals of a batch, and the statuses of its items.
unfoldable pub roll_up : String → String → Bulk → Bulk
roll_up org id d =
    let t = tally_items org d.books.txs (list_items id d.items) no_tally in
    record d {
      batches = update_batches id (λ b. record b { status = parent_status t; tally = t }) d.batches;
      items = update_items id (synced_item org d.books.txs) d.items;
    }

-- `refreshBatchAggregates`
unfoldable pub refresh_batch_aggregates : String → String → Bulk → BulkAnswer × Bulk
refresh_batch_aggregates org id d = elim (find_batch org id d.batches) [
  | none ↦ (refused not_found, d)
  | some b ↦
      if is_cancelled b.status
      then (show_batch org id d, d)
      else (let d' = roll_up org id d in (show_batch org id d', d'))
]

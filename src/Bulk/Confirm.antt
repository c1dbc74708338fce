-- ===== src/Bulk/Confirm.antt =====
-- `confirmBulkBatch`, `cancelBulkBatch` and `getBulkBatch`.
use Prim.Native.String
use dayfi_backend.Base.{
  String, Bool, true, false, ◌&&◌, Option, none, some, List, [], ◌∷◌, str_eq, if◌then◌else◌,
}
use dayfi_backend.Base.Int.{ℤ, pos, ◌+ℤ◌}
use dayfi_backend.Ledger.Types.{JsNumber}
use dayfi_backend.Lifecycle.Types.{Books, ok, err, as_env}
use dayfi_backend.Bulk.Csv.{no_items}
use dayfi_backend.Bulk.Batch.{
  BatchStatus, ready, processing, partially_completed, cancelled, ItemStatus, item_pending,
  item_invalid, item_ready, item_processing, item_completed, item_failed, item_cancelled,
  payout_failed, BatchRow, ItemRow, Bulk, not_found, invalid_state, not_ready, empty_ready,
  insufficient_balance, balance_error, BulkAnswer, refused, num_or_zero, find_batch, list_items,
  update_items, set_status, show_batch, refresh_batch_aggregates,
}
use dayfi_backend.Bulk.Preflight.{suffices, read_available, can_preflight}

-- What `createPayout` gives.
pub record Created : Type 0 where
  pub id : String
  pub usdc_amount : Option JsNumber

-- `createPayout` for an item under a key, and `simulateSettlement` for a payout; none, and false, for what
-- they throw.
pub record Payouts : Type 0 where
  pub create_payout : BatchRow → ItemRow → String → Books → Option Created × Books
  pub simulate_settlement : String → Books → Bool × Books

abbrev pub is_ready : BatchStatus → Bool
is_ready status = elim status [ ready ↦ true | other ↦ false ]

abbrev pub is_ready_item : ItemRow → Bool
is_ready_item i = elim i.status [ item_ready ↦ true | other ↦ false ]

unfoldable pub ready_items : List ItemRow → List ItemRow
ready_items [] = []
ready_items (i ∷ is) = let rest = ready_items is in if is_ready_item i then i ∷ rest else rest

unfoldable pub sum_usdc : List ItemRow → ℤ
sum_usdc [] = pos 0
sum_usdc (i ∷ is) = num_or_zero i.usdc_amount +ℤ sum_usdc is

-- `bulk:${batchId}:item:${item.id}`
abbrev pub item_key : String → String → String
item_key batch item = String.◌++◌ "bulk:" (String.◌++◌ batch (String.◌++◌ ":item:" item))

-- An UPDATE of one item, by its id.
unfoldable pub update_item : String → (ItemRow → ItemRow) → List ItemRow → List ItemRow
update_item id patch [] = []
update_item id patch (i ∷ is) = (if str_eq id i.id then patch i else i) ∷ update_item id patch is

abbrev pub set_item : String → ItemStatus → Bulk → Bulk
set_item id status d = record d {
  items = update_item id (λ i. record i { status = status }) d.items;
}

abbrev pub with_payout : Created → ItemRow → ItemRow
with_payout c i = record i {
  payout_transaction_id = some c.id;
  status = item_processing;
  usdc_amount = elim c.usdc_amount [ some n ↦ some n | none ↦ i.usdc_amount ];
}

-- The simulated settlement of a payout just made.
unfoldable pub simulate_item : Payouts → ItemRow → Created → Bulk → Bulk
simulate_item v i c d =
    let (fine, books) = v.simulate_settlement c.id d.books in
    set_item i.id (if fine then item_completed else item_failed) (record d { books = books })

-- One round of the loop: the payout of an item.
unfoldable pub pay_item : Payouts → Bool → BatchRow → ItemRow → Bulk → Bulk
pay_item v simulate b i d =
    let (made, books) = v.create_payout b i (item_key b.id i.id) d.books in
    elim made [
      | none ↦ record d {
        books = books;
        items =
            update_item i.id
              (λ r. record r { status = item_failed; validation_errors = payout_failed ∷ [] })
              d.items;
      }
      | some c ↦
          let d' = record d { books = books; items = update_item i.id (with_payout c) d.items } in
          if simulate then simulate_item v i c d' else d'
    ]

unfoldable pub pay_items : Payouts → Bool → BatchRow → List ItemRow → Bulk → Bulk
pay_items v simulate b [] d = d
pay_items v simulate b (i ∷ is) d = pay_items v simulate b is (pay_item v simulate b i d)

-- What is done once the balance has been read and suffices.
unfoldable pub pay_batch :
    Payouts → Bool → String → String → BatchRow → List ItemRow → Bulk → BulkAnswer × Bulk
pay_batch v simulate org id b is d =
    let d' =
      pay_items v (simulate && str_eq (as_env b.environment) "test") b is
        (set_status id processing d) in
    let d'' = (refresh_batch_aggregates org id d').1 in
    ((refresh_batch_aggregates org id d').0, d'')

unfoldable pub confirm_ready :
    Payouts → Bool → String → String → BatchRow → Bulk → BulkAnswer × Bulk
confirm_ready v simulate org id b d =
    let is = ready_items (list_items id d.items) in
    if no_items is
    then (refused empty_ready, d)
    else (let (r, books) = read_available b d.books in
        let d' = record d { books = books } in
        elim r [
          | err e ↦ (refused (balance_error e), d')
          | ok balance ↦
              if suffices balance (sum_usdc is)
              then pay_batch v simulate org id b is d'
              else (refused insufficient_balance, d')
        ])

-- `confirmBulkBatch`
unfoldable pub confirm_bulk_batch : Payouts → Bool → String → String → Bulk → BulkAnswer × Bulk
confirm_bulk_batch v simulate org id d = elim (find_batch org id d.batches) [
  | none ↦ (refused not_found, d)
  | some b ↦
      if is_ready b.status then confirm_ready v simulate org id b d else (refused not_ready, d)
]

abbrev pub is_open_item : ItemStatus → Bool
is_open_item status = elim status [
  | item_pending ↦ true
  | item_ready ↦ true
  | item_invalid ↦ true
  | other ↦ false
]

-- `cancelBulkBatch`
unfoldable pub cancel_bulk_batch : String → String → Bulk → BulkAnswer × Bulk
cancel_bulk_batch org id d = elim (find_batch org id d.batches) [
  | none ↦ (refused not_found, d)
  | some b ↦
      if can_preflight b.status
      then (let d' = set_status id cancelled d in
          let d'' = record d' {
            items =
                update_items id
                  (λ i. if is_open_item i.status then record i { status = item_cancelled } else i)
                  d.items;
          } in
          (show_batch org id d'', d''))
      else (refused invalid_state, d)
]

abbrev pub is_running : BatchStatus → Bool
is_running status = elim status [ processing ↦ true | partially_completed ↦ true | other ↦ false ]

-- `getBulkBatch`
unfoldable pub get_bulk_batch : String → String → Bulk → BulkAnswer × Bulk
get_bulk_batch org id d = elim (find_batch org id d.batches) [
  | none ↦ (refused not_found, d)
  | some b ↦
      let d' = if is_running b.status then (refresh_batch_aggregates org id d).1 else d in
      (show_batch org id d', d')
]

-- ===== src/Bulk/Final.antt =====
-- A batch of infraBulkService.ts is confirmed once.
use dayfi_backend.Base.{
  ◌≡◌, ◌∙◌, refl, ap, arith, String, Bool, true, false, ◌&&◌, some, List, [], ◌∷◌, ◌⊎◌, inl, inr,
  str_eq, Bool-cases, Option-cases,
}
use dayfi_backend.Lifecycle.Types.{as_env}
use dayfi_backend.Lifecycle.Webhook.Kept.{shape}
use dayfi_backend.Bulk.Csv.{no_items}
use dayfi_backend.Bulk.Batch.{
  BatchStatus, processing, Tally, BatchRow, ItemRow, Bulk, is_batch, set_status, find_batch,
  list_items, update_batches, no_tally, tally_items, parent_status, is_cancelled, roll_up,
  refresh_batch_aggregates,
}
use dayfi_backend.Bulk.Quote.{Quoting}
use dayfi_backend.Bulk.Preflight.{suffices, read_available, can_preflight, run_preflight}
use dayfi_backend.Bulk.Confirm.{
  Payouts, is_ready, item_key, ready_items, sum_usdc, pay_item, pay_items, pay_batch, simulate_item,
  confirm_ready, confirm_bulk_batch, cancel_bulk_batch,
}

pub find_batch-update :
    (org id : String) (patch : BatchRow → BatchRow) (bs : List BatchRow) (b : BatchRow)
    → ((r : BatchRow) → ((patch r).id ≡ r.id) × ((patch r).org_id ≡ r.org_id))
    → find_batch org id bs ≡ some b
    → find_batch org id (update_batches id patch bs) ≡ some (patch b)
unfolding find_batch update_batches
find_batch-update org id patch [] b kept found = absurd (ground arith)
find_batch-update org id patch (r ∷ rs) b kept found =
    let rest = find_batch-update org id patch rs b kept in
    let (same_id, same_org) = kept r in
    elim (Bool-cases (is_batch org id r)) [
      | inl hit ↦
          let here : r ≡ b = ground arith in
          let own : str_eq id r.id ≡ true = ground arith in
          let still : is_batch org id (patch r) ≡ true = rw (same_id, same_org) hit in
          rw (own, still) (ap (λ (x : BatchRow). some (patch x)) here)
      | inr miss ↦ elim (Bool-cases (str_eq id r.id)) [
        | inl also ↦
            let still : is_batch org id (patch r) ≡ false = rw (same_id, same_org) miss in
            rw (also, still) (rest (ground arith))
        | inr other ↦ rw (other, miss) (rest (ground arith))
      ]
    ]

pay_item-batches :
    (v : Payouts) (simulate : Bool) (b : BatchRow) (i : ItemRow) (d : Bulk)
    → (pay_item v simulate b i d).batches ≡ d.batches
unfolding pay_item simulate_item
pay_item-batches v simulate b i d =
    elim (Option-cases (v.create_payout b i (item_key b.id i.id) d.books).0) [
      | inl failed ↦ rw (pay_item, failed) refl
      | inr (c, made) ↦ elim (Bool-cases simulate) [
        | inl on ↦ rw (pay_item, made, on, simulate_item) refl
        | inr off ↦ rw (pay_item, made, off) refl
      ]
    ]

pay_items-batches :
    (v : Payouts) (simulate : Bool) (b : BatchRow) (is : List ItemRow) (d : Bulk)
    → (pay_items v simulate b is d).batches ≡ d.batches
unfolding pay_items
pay_items-batches v simulate b [] d = refl
pay_items-batches v simulate b (i ∷ is) d =
    pay_items-batches v simulate b is (pay_item v simulate b i d)
    ∙ pay_item-batches v simulate b i d

parent_status-closed : (t : Tally) → can_preflight (parent_status t) ≡ false
parent_status-closed t = ground arith

-- A batch that can be confirmed, checked and cancelled no more.
abbrev pub IsClosed : String → String → Bulk → Type 0
IsClosed org id d =
    (b : BatchRow) × (find_batch org id d.batches ≡ some b) × (can_preflight b.status ≡ false)

refresh-IsClosed :
    (org id : String) (d : Bulk)
    → IsClosed org id d
    → IsClosed org id (refresh_batch_aggregates org id d).1
unfolding refresh_batch_aggregates roll_up
refresh-IsClosed org id d (b, found, closed) = elim (Bool-cases (is_cancelled b.status)) [
  | inl over ↦ rw (refresh_batch_aggregates, found, over) (b, found, closed)
  | inr running ↦
      let t = tally_items org d.books.txs (list_items id d.items) no_tally in
      let patch = λ (r : BatchRow). record r { status = parent_status t; tally = t } in
      rw (refresh_batch_aggregates, found, running)
        (
          patch b,
          find_batch-update org id patch d.batches b (λ r. (refl, refl)) found,
          parent_status-closed t,
        )
]

pay_batch-IsClosed :
    (v : Payouts) (simulate : Bool) (org id : String) (b : BatchRow) (is : List ItemRow) (d : Bulk)
    → find_batch org id d.batches ≡ some b
    → IsClosed org id (pay_batch v simulate org id b is d).1
unfolding pay_batch
pay_batch-IsClosed v simulate org id b is d found =
    let on = simulate && str_eq (as_env b.environment) "test" in
    let d0 = set_status id processing d in
    let d1 = pay_items v on b is d0 in
    let there : find_batch org id d1.batches ≡ some (record b { status = processing }) =
      rw (pay_items-batches v on b is d0) (
        find_batch-update org id (λ r. record r { status = processing }) d.batches b
          (λ r. (refl, refl)) found) in
    refresh-IsClosed org id d1 (record b { status = processing }, there, refl)

-- The batches and items are as they were.
abbrev pub SameRows : Bulk → Bulk → Type 0
SameRows d d' = (d'.batches ≡ d.batches) × (d'.items ≡ d.items)

confirm_ready-cases :
    (v : Payouts) (simulate : Bool) (org id : String) (b : BatchRow) (d : Bulk)
    → find_batch org id d.batches ≡ some b
    → SameRows d (confirm_ready v simulate org id b d).1
      ⊎ IsClosed org id (confirm_ready v simulate org id b d).1
unfolding confirm_ready
confirm_ready-cases v simulate org id b d found =
    let is = ready_items (list_items id d.items) in
    let d' : Bulk = record d { books = (read_available b d.books).1 } in
    elim (Bool-cases (no_items is)) [
      | inl empty ↦ rw (confirm_ready, empty) (inl (refl, refl))
      | inr some_ready ↦ elim (shape (read_available b d.books).0) [
        | inl (e, unread) ↦ rw (confirm_ready, some_ready, unread) (inl (refl, refl))
        | inr (balance, read) ↦ elim (Bool-cases (suffices balance (sum_usdc is))) [
          | inl enough ↦
              rw (confirm_ready, some_ready, read, enough)
                (inr (pay_batch-IsClosed v simulate org id b is d' found))
          | inr short ↦ rw (confirm_ready, some_ready, read, short) (inl (refl, refl))
        ]
      ]
    ]

ready-can_preflight :
    (status : BatchStatus) → can_preflight status ≡ false → is_ready status ≡ false
ready-can_preflight status closed = ground arith

closed_confirm :
    (v : Payouts) (simulate : Bool) (org id : String) (d : Bulk)
    → IsClosed org id d
    → (confirm_bulk_batch v simulate org id d).1 ≡ d
unfolding confirm_bulk_batch
closed_confirm v simulate org id d (b, found, closed) =
    rw (confirm_bulk_batch, found, ready-can_preflight b.status closed) refl

closed_preflight :
    (v : Quoting) (org id : String) (d : Bulk)
    → IsClosed org id d
    → (run_preflight v org id d).1 ≡ d
unfolding run_preflight
closed_preflight v org id d (b, found, closed) = rw (run_preflight, found, closed) refl

closed_cancel :
    (org id : String) (d : Bulk) → IsClosed org id d → (cancel_bulk_batch org id d).1 ≡ d
unfolding cancel_bulk_batch
closed_cancel org id d (b, found, closed) = rw (cancel_bulk_batch, found, closed) refl

-- A call to confirm a batch leaves all batches and items as they are, or it is the last of its kind:
-- afterwards no call to confirm, to check or to cancel the batch changes anything. So no item is paid by
-- two calls that follow each other.
pub confirm_once :
    (v : Payouts) (simulate : Bool) (org id : String) (d : Bulk)
    → SameRows d (confirm_bulk_batch v simulate org id d).1
      ⊎ (((w : Payouts) (again : Bool)
            → (confirm_bulk_batch w again org id (confirm_bulk_batch v simulate org id d).1).1
              ≡ (confirm_bulk_batch v simulate org id d).1)
          × ((w : Quoting)
              → (run_preflight w org id (confirm_bulk_batch v simulate org id d).1).1
                ≡ (confirm_bulk_batch v simulate org id d).1)
          × ((cancel_bulk_batch org id (confirm_bulk_batch v simulate org id d).1).1
              ≡ (confirm_bulk_batch v simulate org id d).1))
unfolding confirm_bulk_batch
confirm_once v simulate org id d =
    let closes : SameRows d (confirm_bulk_batch v simulate org id d).1
        ⊎ IsClosed org id (confirm_bulk_batch v simulate org id d).1 =
      elim (Option-cases (find_batch org id d.batches)) [
        | inl missing ↦ rw (confirm_bulk_batch, missing) (inl (refl, refl))
        | inr (b, found) ↦ elim (Bool-cases (is_ready b.status)) [
          | inl yes_ready ↦
              rw (confirm_bulk_batch, found, yes_ready)
                (confirm_ready-cases v simulate org id b d found)
          | inr unready ↦ rw (confirm_bulk_batch, found, unready) (inl (refl, refl))
        ]
      ] in
    let d' = (confirm_bulk_batch v simulate org id d).1 in
    elim closes [
      | inl same ↦ inl same
      | inr closed ↦ inr (
        λ w again. closed_confirm w again org id d' closed,
        λ w. closed_preflight w org id d' closed,
        closed_cancel org id d' closed,
      )
    ]

-- ===== src/Bulk/Refresh.antt =====
-- What refreshBatchAggregates of infraBulkService.ts makes of a batch.
use dayfi_backend.Base.{
  ◌≡◌, ◌∙◌, refl, sym, ap, arith, String, true, false, Option, none, some, List, [], ◌∷◌, inl, inr,
  map, str_eq, Bool-cases, Option-cases,
}
use dayfi_backend.Lifecycle.Types.{TxRow}
use dayfi_backend.Bulk.Batch.{
  Tally, BatchRow, ItemRow, Bulk, find_batch, list_items, update_batches, update_items, no_tally,
  child_of, tally_item, tally_items, parent_status, is_cancelled, synced_item, synced_with,
  tally_child, roll_up, refresh_batch_aggregates, BulkAnswer, refused, not_found, show_batch,
}
use dayfi_backend.Bulk.Final.{find_batch-update}

list-update_items :
    (batch : String) (f : ItemRow → ItemRow) (is : List ItemRow)
    → ((i : ItemRow) → (f i).batch_id ≡ i.batch_id)
    → list_items batch (update_items batch f is) ≡ map f (list_items batch is)
unfolding list_items update_items
list-update_items batch f [] kept = refl
list-update_items batch f (i ∷ is) kept =
    let rest = list-update_items batch f is kept in
    elim (Bool-cases (str_eq batch i.batch_id)) [
      | inl hit ↦ rw (hit, kept i, hit, rest) refl
      | inr miss ↦ rw (miss, miss) rest
    ]

update_items-twice :
    (batch : String) (f : ItemRow → ItemRow) (is : List ItemRow)
    → ((i : ItemRow) → (f i).batch_id ≡ i.batch_id)
    → ((i : ItemRow) → f (f i) ≡ f i)
    → update_items batch f (update_items batch f is) ≡ update_items batch f is
unfolding update_items
update_items-twice batch f [] kept again = refl
update_items-twice batch f (i ∷ is) kept again =
    let rest = update_items-twice batch f is kept again in
    elim (Bool-cases (str_eq batch i.batch_id)) [
      | inl hit ↦
          let still : str_eq batch (f i).batch_id ≡ true = rw (kept i) hit in
          rw (hit, still, again i, rest) refl
      | inr miss ↦ rw (miss, miss, rest) refl
    ]

update_batches-twice :
    (id : String) (f : BatchRow → BatchRow) (bs : List BatchRow)
    → ((b : BatchRow) → (f b).id ≡ b.id)
    → ((b : BatchRow) → f (f b) ≡ f b)
    → update_batches id f (update_batches id f bs) ≡ update_batches id f bs
unfolding update_batches
update_batches-twice id f [] kept again = refl
update_batches-twice id f (b ∷ bs) kept again =
    let rest = update_batches-twice id f bs kept again in
    elim (Bool-cases (str_eq id b.id)) [
      | inl hit ↦
          let still : str_eq id (f b).id ≡ true = rw (kept b) hit in
          rw (hit, still, again b, rest) refl
      | inr miss ↦ rw (miss, miss, rest) refl
    ]

synced_with-batch : (c : Option TxRow) (i : ItemRow) → (synced_with c i).batch_id ≡ i.batch_id
synced_with-batch (some r) i = refl
synced_with-batch none i = refl

synced_with-child :
    (org : String) (txs : List TxRow) (c : Option TxRow) (i : ItemRow)
    → child_of org txs (synced_with c i) ≡ child_of org txs i
synced_with-child org txs (some r) i = refl
synced_with-child org txs none i = refl

synced_with-twice :
    (c : Option TxRow) (i : ItemRow) → synced_with c (synced_with c i) ≡ synced_with c i
synced_with-twice (some r) i = refl
synced_with-twice none i = refl

synced_item-twice :
    (org : String) (txs : List TxRow) (i : ItemRow)
    → synced_item org txs (synced_item org txs i) ≡ synced_item org txs i
synced_item-twice org txs i =
    let c = child_of org txs i in
    ap (λ (x : Option TxRow). synced_with x (synced_with c i)) (synced_with-child org txs c i)
    ∙ synced_with-twice c i

tally_child-synced :
    (c : Option TxRow) (i : ItemRow) (t : Tally)
    → tally_child c (synced_with c i) t ≡ tally_child c i t
tally_child-synced (some r) i t = refl
tally_child-synced none i t = refl

tally_item-synced :
    (org : String) (txs : List TxRow) (i : ItemRow) (t : Tally)
    → tally_item org txs (synced_item org txs i) t ≡ tally_item org txs i t
unfolding tally_item
tally_item-synced org txs i t =
    let c = child_of org txs i in
    ap (λ (x : Option TxRow). tally_child x (synced_with c i) t) (synced_with-child org txs c i)
    ∙ tally_child-synced c i t

tally_items-synced :
    (org : String) (txs : List TxRow) (is : List ItemRow) (t : Tally)
    → tally_items org txs (map (synced_item org txs) is) t ≡ tally_items org txs is t
unfolding tally_items
tally_items-synced org txs [] t = refl
tally_items-synced org txs (i ∷ is) t =
    ap (λ (x : Tally). tally_items org txs (map (synced_item org txs) is) x)
      (tally_item-synced org txs i t)
    ∙ tally_items-synced org txs is (tally_item org txs i t)

roll_up-tally :
    (org id : String) (d : Bulk)
    → tally_items org d.books.txs (list_items id (roll_up org id d).items) no_tally
      ≡ tally_items org d.books.txs (list_items id d.items) no_tally
unfolding roll_up
roll_up-tally org id d =
    ap (λ (is : List ItemRow). tally_items org d.books.txs is no_tally)
      (list-update_items id (synced_item org d.books.txs) d.items
        (λ i. synced_with-batch (child_of org d.books.txs i) i))
    ∙ tally_items-synced org d.books.txs (list_items id d.items) no_tally

roll_up-roll_up :
    (org id : String) (d : Bulk) → roll_up org id (roll_up org id d) ≡ roll_up org id d
unfolding roll_up
roll_up-roll_up org id d =
    let sync = synced_item org d.books.txs in
    let t = tally_items org d.books.txs (list_items id d.items) no_tally in
    let patch = λ (b : BatchRow). record b { status = parent_status t; tally = t } in
    let items = update_items id sync d.items in
    ap
      (λ (x : Tally). record d {
        batches =
            update_batches id (λ b. record b { status = parent_status x; tally = x })
              (update_batches id patch d.batches);
        items = update_items id sync items;
      })
      (roll_up-tally org id d)
    ∙ ap (λ (bs : List BatchRow). record d { batches = bs; items = update_items id sync items })
        (update_batches-twice id patch d.batches (λ b. refl) (λ b. refl))
    ∙ ap
        (λ (is : List ItemRow). record d {
          batches = update_batches id patch d.batches;
          items = is;
        })
        (update_items-twice id sync d.items (λ i. synced_with-batch (child_of org d.books.txs i) i)
          (synced_item-twice org d.books.txs))

parent_status-running : (t : Tally) → is_cancelled (parent_status t) ≡ false
parent_status-running t = ground arith

rolled_up :
    (org id : String) (d : Bulk) (b : BatchRow)
    → find_batch org id d.batches ≡ some b
    → refresh_batch_aggregates org id (roll_up org id d)
      ≡ (show_batch org id (roll_up org id d), roll_up org id d)
unfolding refresh_batch_aggregates
rolled_up org id d b found =
    let t = tally_items org d.books.txs (list_items id d.items) no_tally in
    let patch = λ (r : BatchRow). record r { status = parent_status t; tally = t } in
    let there : find_batch org id (roll_up org id d).batches ≡ some (patch b) =
      unfold roll_up in find_batch-update org id patch d.batches b (λ r. (refl, refl)) found in
    rw (refresh_batch_aggregates, there, parent_status-running t, roll_up-roll_up org id d) refl

-- Refreshing a batch once more, with nothing between, gives the same answer and changes nothing.
pub refresh-refresh :
    (org id : String) (d : Bulk)
    → refresh_batch_aggregates org id (refresh_batch_aggregates org id d).1
      ≡ refresh_batch_aggregates org id d
unfolding refresh_batch_aggregates
refresh-refresh org id d = elim (Option-cases (find_batch org id d.batches)) [
  | inl missing ↦
      let first : refresh_batch_aggregates org id d ≡ (refused not_found, d) =
        rw (refresh_batch_aggregates, missing) refl in
      ap (λ (x : BulkAnswer × Bulk). refresh_batch_aggregates org id x.1) first
  | inr (b, found) ↦ elim (Bool-cases (is_cancelled b.status)) [
    | inl over ↦
        let first : refresh_batch_aggregates org id d ≡ (show_batch org id d, d) =
          rw (refresh_batch_aggregates, found, over) refl in
        ap (λ (x : BulkAnswer × Bulk). refresh_batch_aggregates org id x.1) first
    | inr running ↦
        let d' = roll_up org id d in
        let first : refresh_batch_aggregates org id d ≡ (show_batch org id d', d') =
          rw (refresh_batch_aggregates, found, running) refl in
        ap (λ (x : BulkAnswer × Bulk). refresh_batch_aggregates org id x.1) first
        ∙ rolled_up org id d b found
        ∙ sym first
  ]
]

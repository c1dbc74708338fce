-- ===== src/Transfers/Recorded.antt =====
-- What the transaction of a transfer makes of the table of transfers.
use dayfi_backend.Base.{◌≡◌, refl, arith, String, Option, some, List, ◌∷◌, inl, inr, eq_refl}
use dayfi_backend.Ledger.Transfer.{TransferResult, transfer_run}
use dayfi_backend.Ledger.Fee.{apply_dayfi_transaction_fee}
use dayfi_backend.Transfers.Types.{
  TransferRow, TxEntry, Tables, ok, Step, ◌>>=◌, on_ledger, find_transfer, insert_transfer,
  insert_entry,
}
use dayfi_backend.Transfers.Record.{
  update_transfer, Order, record_transfer, record_transfer_fee, update_rows, transfer_row,
  sender_entry, recipient_entry, completed_row, transfer_params, fee_params,
}
use dayfi_backend.Transfers.Fees.{record_transfer_fee-Keeps}
use dayfi_backend.Transfers.Keeps.{shape, Keeps, Blind, on_ledger-Keeps}

abbrev pub rows : Tables → List TransferRow
rows t = t.transfers

pub rows-Blind : Blind rows
rows-Blind org env t b db done = refl

-- A step that succeeds, taken apart.
pub bind_ok :
    {A B : Type 0} (m : Step A) (next : A → Step B) (t : Tables) (b : B) (t'' : Tables)
    → ◌>>=◌ m next t ≡ ok (b, t'')
    → (a : A) × (t' : Tables) × (m t ≡ ok (a, t')) × (next a t' ≡ ok (b, t''))
bind_ok m next t b t'' h = elim (shape (m t)) [
  | inl (e, failed) ↦ absurd (ground arith)
  | inr ((a, t'), done) ↦ (a, t', done, ground arith)
]

insert_transfer-rows :
    (r r' : TransferRow) (t t' : Tables)
    → insert_transfer r t ≡ ok (r', t')
    → (r' ≡ r) × (t'.transfers ≡ r ∷ t.transfers)
unfolding insert_transfer
insert_transfer-rows r r' t t' h = (ground arith, ground arith)

insert_entry-Keeps : (e : TxEntry) → Keeps rows (insert_entry e)
unfolding insert_entry
insert_entry-Keeps e t a t' h = ground arith

-- What a step that succeeds makes of the transfers.
abbrev Ends : {A : Type 0} → (List TransferRow → List TransferRow → Type 0) → Step A → Type 0
Ends {A} Q m = (t : Tables) (a : A) (t' : Tables) → m t ≡ ok (a, t') → Q t.transfers t'.transfers

bind-Ends :
    {A B : Type 0} (Q : List TransferRow → List TransferRow → Type 0) (m : Step A)
    (next : A → Step B)
    → Keeps rows m
    → ((a : A) → Ends Q (next a))
    → Ends Q (◌>>=◌ m next)
bind-Ends Q m next keeps ends t b t'' h = elim (shape (m t)) [
  | inl (e, failed) ↦ absurd (ground arith)
  | inr ((a, t'), done) ↦ let end = ends a t' b t'' (ground arith) in rw (keeps t a t' done) at end
]

fee-Keeps : (o : Order) → Keeps rows (record_transfer_fee o)
fee-Keeps o =
    record_transfer_fee-Keeps rows o (λ t fs. refl)
      (on_ledger-Keeps rows (apply_dayfi_transaction_fee (fee_params o)) (λ t a db done. refl))

-- The steps after the insert of the row, the last ones first.
module _ (o : Order) (row : TransferRow) where
  abbrev pub Patched : List TransferRow → List TransferRow → Type 0
  Patched rs rs' =
      (ledger : TransferResult) × (fee : Option String) × (rs'
        ≡ update_rows row.id (completed_row o ledger fee) rs)

  abbrev pub after_ledger : TransferResult → Step TransferRow
  after_ledger ledger = do
    recorded_fee ← record_transfer_fee o
    update_transfer row (completed_row o ledger recorded_fee)

  abbrev pub after_received : TxEntry → Step TransferRow
  after_received received = do
    ledger ← on_ledger (transfer_run (transfer_params o))
    after_ledger ledger

  abbrev pub after_sent : TxEntry → Step TransferRow
  after_sent sent = do received ← insert_entry (recipient_entry o); after_received received

  abbrev pub after_insert : Step TransferRow
  after_insert = do sent ← insert_entry (sender_entry o); after_sent sent

  update-Patched :
      (ledger : TransferResult) (fee : Option String)
      → Ends Patched (update_transfer row (completed_row o ledger fee))
  update-Patched ledger fee t a t' h = (ledger, fee, ground arith)

  after_insert-Patched : Ends Patched after_insert
  after_insert-Patched =
      bind-Ends Patched (insert_entry (sender_entry o)) after_sent
        (insert_entry-Keeps (sender_entry o))
        (λ sent.
          bind-Ends Patched (insert_entry (recipient_entry o)) after_received
            (insert_entry-Keeps (recipient_entry o))
            (λ received.
              bind-Ends Patched (on_ledger (transfer_run (transfer_params o))) after_ledger
                (on_ledger-Keeps rows (transfer_run (transfer_params o)) (λ t a db done. refl))
                (λ ledger.
                  bind-Ends Patched (record_transfer_fee o)
                    (λ fee. update_transfer row (completed_row o ledger fee)) (fee-Keeps o)
                    (update-Patched ledger))))

record_transfer-rows :
    (o : Order) (t : Tables) (r : TransferRow) (t' : Tables)
    → record_transfer o t ≡ ok (r, t')
    → Patched o (transfer_row o) (transfer_row o ∷ t.transfers) t'.transfers
unfolding record_transfer
record_transfer-rows o t r t' h =
    let (row, t1, done, rest) =
      bind_ok (insert_transfer (transfer_row o)) (after_insert o) t r t' h in
    let (named, inserted) = insert_transfer-rows (transfer_row o) row t t1 done in
    let end = after_insert-Patched o row t1 r t' rest in rw (named, inserted) at end

-- The row that a transaction has recorded is found by its key.
pub record_transfer-found :
    (o : Order) (key : String) (t : Tables) (r : TransferRow) (t' : Tables)
    → o.idem ≡ some key
    → record_transfer o t ≡ ok (r, t')
    → (row : TransferRow) × (find_transfer o.sender_org_id o.environment key t'.transfers
        ≡ some row)
unfolding find_transfer update_rows
record_transfer-found o key t r t' keyed h =
    let (ledger, fee, same) = record_transfer-rows o t r t' h in
    (
      completed_row o ledger fee (transfer_row o),
      rw
          (
            same,
            eq_refl o.transfer_group_id,
            keyed,
            eq_refl o.sender_org_id,
            eq_refl o.environment,
            eq_refl key,
          )
          refl,
    )

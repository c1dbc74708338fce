-- ===== src/Transfers/Money.antt =====
-- No transfer makes money or loses any.
use dayfi_backend.Base.{
  ℕ, ◌≡◌, ◌≢◌, ◌∙◌, refl, ap, arith, String, false, none, List, inl, inr, Option-cases, Bool-cases,
}
use dayfi_backend.Ledger.Types.{LedgerMovement}
use dayfi_backend.Ledger
use dayfi_backend.Ledger.Store.{Db, tx}
use dayfi_backend.Ledger.Store.Rows.{total}
use dayfi_backend.Ledger.Balance.{get_org_balance_reads}
use dayfi_backend.Ledger.Transfer.{
  TransferParams, TransferResult, transfer_run, transfer_available_balance,
}
use dayfi_backend.Ledger.Transfer.Effect.{Transfers, transfer-Transfers}
use dayfi_backend.Ledger.Fee.{apply_dayfi_transaction_fee}
use dayfi_backend.Ledger.Fee.Apply.{apply_fee_conserves}
use dayfi_backend.Transfers.Types.{
  TransferRow, TxEntry, Tables, TransferError, unique_violation, ok, err, on_ledger, commit,
  find_transfer, insert_transfer, insert_entry,
}
use dayfi_backend.Transfers.Record.{
  Order, record_transfer, record_transfer_fee, transfer_params, fee_params, transfer_row,
  sender_entry, recipient_entry, update_transfer, completed_row,
}
use dayfi_backend.Transfers.Recipient.{Directory}
use dayfi_backend.Transfers.Create.{
  Settings, Drawn, Request, check_request, place_order, execute, recover, present_existing, proceed,
  needs_key, order_for, fee_of, assert_can_pay, create_internal_transfer,
}
use dayfi_backend.Transfers.Fees.{record_transfer_fee-Keeps}
use dayfi_backend.Transfers.Recorded.{after_ledger, after_received, after_sent, after_insert}
use dayfi_backend.Transfers.Retry.{committed}
use dayfi_backend.Transfers.Keeps.{
  shape, Keeps, CallKeeps, Blind, bind-Keeps, then_call-Keeps, on_ledger-Keeps, present-Keeps,
  present_existing-Keeps, assert_can_pay-Keeps,
}

-- The sum of all balances.
abbrev pub money : Tables → ℕ
money t = total t.ledger.wallets

money-Blind : Blind money
money-Blind org env t b db done = elim (get_org_balance_reads org env none t.ledger) [
  | inl (shut, failed) ↦ absurd (ground arith)
  | inr (b', db', same, reads, sum, shows) ↦ ground arith
]

transfer_run-money :
    (p : TransferParams) (seen : List LedgerMovement) (db : Db) (r : TransferResult) (db' : Db)
    → transfer_run p seen db ≡ Ledger.Types.ok (r, db')
    → total db'.wallets ≡ total db.wallets
unfolding transfer_available_balance
transfer_run-money p seen db r db' h =
    let same : transfer_available_balance p seen db ≡ (Ledger.Types.ok r, db') =
      rw (transfer_available_balance, tx, h) refl in
    let moved : Transfers p db (Ledger.Types.ok r, db') =
      rw same at (transfer-Transfers p seen db) in
    elim moved [
      | inl (again, same) ↦ ap (λ (d : Db). total d.wallets) same
      | inr (new, sum, taken, covered, given, others) ↦ sum
    ]

insert_transfer-money : (r : TransferRow) → Keeps money (insert_transfer r)
unfolding insert_transfer
insert_transfer-money r t a t' h = ground arith

insert_entry-money : (e : TxEntry) → Keeps money (insert_entry e)
unfolding insert_entry
insert_entry-money e t a t' h = ground arith

update-money :
    (row : TransferRow) (patch : TransferRow → TransferRow)
    → Keeps money (update_transfer row patch)
update-money row patch t a t' h = ground arith

module _ (o : Order) (apart : o.sender_org_id ≢ o.revenue_org_id) where
  fee-money : Keeps money (record_transfer_fee o)
  fee-money =
      record_transfer_fee-Keeps money o (λ t fs. refl)
        (on_ledger-Keeps money (apply_dayfi_transaction_fee (fee_params o)) (λ t a db done.
          apply_fee_conserves (fee_params o) t.ledger.movements t.ledger a db done apart))

  record_transfer-money : Keeps money (record_transfer o)
  unfolding record_transfer
  record_transfer-money =
      bind-Keeps money (insert_transfer (transfer_row o)) (after_insert o)
        (insert_transfer-money (transfer_row o))
        (λ row.
          bind-Keeps money (insert_entry (sender_entry o)) (after_sent o row)
            (insert_entry-money (sender_entry o))
            (λ sent.
              bind-Keeps money (insert_entry (recipient_entry o)) (after_received o row)
                (insert_entry-money (recipient_entry o))
                (λ received.
                  bind-Keeps money (on_ledger (transfer_run (transfer_params o)))
                    (after_ledger o row)
                    (on_ledger-Keeps money (transfer_run (transfer_params o)) (λ t r db done.
                      transfer_run-money (transfer_params o) t.ledger.movements t.ledger r db done))
                    (λ ledger.
                      bind-Keeps money (record_transfer_fee o)
                        (λ fee. update_transfer row (completed_row o ledger fee)) fee-money
                        (λ fee. update-money row (completed_row o ledger fee))))))

  recover-money : (e : TransferError) → CallKeeps money (recover o e)
  unfolding recover
  recover-money unique_violation t = elim (Option-cases o.idem) [
    | inl unkeyed ↦ rw (recover, unkeyed) refl
    | inr (key, keyed) ↦
        elim (Option-cases (find_transfer o.sender_org_id o.environment key t.transfers)) [
          | inl missing ↦
              let same : recover o unique_violation t ≡ (err unique_violation, t) =
                simp (recover, keyed, missing) in
              rw same refl
          | inr (row, found) ↦
              let same : recover o unique_violation t ≡ present_existing o.fingerprint row t =
                simp (recover, keyed, found) in
              rw same (present_existing-Keeps money money-Blind o.fingerprint row t)
        ]
  ]
  recover-money e t = refl

  execute-money : CallKeeps money (execute o)
  unfolding execute
  execute-money t = elim (shape (record_transfer o t)) [
    | inl (e, failed) ↦ rw (committed o t (err e, t) (rw (commit, failed) refl)) (recover-money e t)
    | inr ((row, t1), done) ↦
        rw (committed o t (ok row, t1) (rw (commit, done) refl))
          (present-Keeps money money-Blind false row t1 ∙ record_transfer-money t row t1 done)
  ]

  place_order-money : CallKeeps money (place_order o)
  unfolding place_order
  place_order-money t = elim (Option-cases o.idem) [
    | inl unkeyed ↦
        let same : place_order o t ≡ execute o t = simp (place_order, unkeyed) in
        rw same (execute-money t)
    | inr (key, keyed) ↦
        elim (Option-cases (find_transfer o.sender_org_id o.environment key t.transfers)) [
          | inl missing ↦
              let same : place_order o t ≡ execute o t = simp (place_order, keyed, missing) in
              rw same (execute-money t)
          | inr (row, found) ↦
              let same : place_order o t ≡ present_existing o.fingerprint row t =
                simp (place_order, keyed, found) in
              rw same (present_existing-Keeps money money-Blind o.fingerprint row t)
        ]
  ]

  proceed-money : (u : Unit {0}) → CallKeeps money (proceed o u)
  proceed-money u t = elim (Bool-cases (needs_key o.environment o.idem)) [
    | inl missing ↦ rw (proceed, missing) refl
    | inr fine ↦ rw (proceed, fine) (place_order-money t)
  ]

-- Whatever a transfer answers, the sum of the balances of all wallets stays, if the sender is not the
-- organization that receives the fees.
pub transfer_conserves :
    (digest : ℕ → String → String → String) (s : Settings) (dir : Directory) (drawn : Drawn)
    (q : Request) (t : Tables)
    → q.sender_org_id ≢ s.revenue_org_id
    → money (create_internal_transfer digest s dir drawn q t).1 ≡ money t
unfolding create_internal_transfer
transfer_conserves digest s dir drawn q t apart = elim (shape (check_request dir q)) [
  | inl (e, failed) ↦ rw (create_internal_transfer, failed) refl
  | inr (c, checked) ↦
      let o = order_for digest s drawn q c in
      rw (create_internal_transfer, checked)
        (then_call-Keeps money (assert_can_pay q.sender_org_id c (fee_of s)) (proceed o)
          (assert_can_pay-Keeps money money-Blind q.sender_org_id c (fee_of s))
          (proceed-money o apart) t)
]

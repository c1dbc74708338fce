-- ===== src/Ledger/Fee/Apply.antt =====
-- `applyDayfiTransactionFee` as a whole: what it does to the sum of all balances.
use dayfi_backend.Base.{
  ℕ, ◌+◌, ◌≡◌, ◌≢◌, refl, arith, ap, String, List, some, none, Option, inl, inr, ◌⊎◌, true, false,
  trim, Bool-cases, Option-cases, is_empty, ◌||◌, ◌==◌,
}
use dayfi_backend.Ledger.Types.{WalletId, LedgerMovement, ok, parse_amount}
use dayfi_backend.Ledger.Store.{Db, find_movement, wallet_id}
use dayfi_backend.Ledger.Transfer.{TransferResult}
use dayfi_backend.Ledger.Fee.{FeeParams, post_fee, fee_seen, apply_dayfi_transaction_fee}
use dayfi_backend.Ledger.Store.Rows.{total}
use dayfi_backend.Ledger.Write.Posting.{Result-cases}
use dayfi_backend.Ledger.Fee.Legs.{payer_id, revenue_id, post_fee-FeeMoved}
use dayfi_backend.Ledger.Fee.Totals.{FeeMoved-conserves, FeeMoved-mints}

module _ (p : FeeParams) (seen : List LedgerMovement) (db : Db) (r : Option TransferResult)
    (db' : Db) (applied : apply_dayfi_transaction_fee p seen db ≡ ok (r, db')) where
  abbrev debit_key : String
  debit_key = trim p.debit_idempotency_key

  abbrev credit_key : String
  credit_key = trim p.credit_idempotency_key

  -- A fee that has been applied was nothing, or a duplicate, or has been posted.
  fee_applied :
      ((r ≡ none) × (db' ≡ db))
      ⊎ ((t : TransferResult) × (r ≡ some t) × (t.duplicate ≡ true) × (db' ≡ db))
      ⊎ ((amount : ℕ) × (post_fee p amount debit_key credit_key db ≡ ok (r, db')))
  unfolding apply_dayfi_transaction_fee fee_seen
  fee_applied = elim (Result-cases (parse_amount p.amount)) [
    | inl (e, failed) ↦ absurd (ground arith)
    | inr (amount, parsed) ↦ elim (Bool-cases (amount == 0)) [
      | inl nothing ↦ inl (ground arith, ground arith)
      | inr positive ↦ elim (Bool-cases (is_empty debit_key || is_empty credit_key)) [
        | inl empty ↦ absurd (ground arith)
        | inr keyed ↦ elim (Option-cases (find_movement debit_key seen)) [
          | inl d_new ↦ inr (inr (amount, ground arith))
          | inr (d, d_found) ↦ elim (Option-cases (find_movement credit_key seen)) [
            | inl c_new ↦ inr (inr (amount, ground arith))
            | inr (c, c_found) ↦ inr (
                inl (
                  record { debit_movement = d; credit_movement = c; duplicate = true },
                  ground arith,
                  refl,
                  ground arith,
                ))
          ]
        ]
      ]
    ]
  ]

  payer_apart : p.payer_org_id ≢ p.revenue_org_id → payer_id p ≢ revenue_id p
  unfolding wallet_id
  payer_apart apart e = apart (ap (λ (i : WalletId). i.org_id) e)

  -- A fee between two organizations that is not refused leaves the sum of all balances as it was,
  -- whether it is posted, waived as zero or answered as a duplicate.
  pub apply_fee_conserves : p.payer_org_id ≢ p.revenue_org_id → total db'.wallets ≡ total db.wallets
  apply_fee_conserves apart = elim fee_applied [
    | inl (nothing, same) ↦ ap (λ (d : Db). total d.wallets) same
    | inr (inl (t, answer, again, same)) ↦ ap (λ (d : Db). total d.wallets) same
    | inr (inr (amount, posted)) ↦
        FeeMoved-conserves p amount debit_key credit_key db r db'
          (post_fee-FeeMoved p amount debit_key credit_key db r db' posted) (payer_apart apart)
  ]

-- A fee whose payer is the revenue organization itself raises the sum of all balances by the fee when
-- it is posted: both updates start from the one row as it was locked, and the second overwrites the
-- first.
pub apply_fee_self_mints :
    (p : FeeParams) (seen : List LedgerMovement) (db : Db) (t : TransferResult) (db' : Db)
    → apply_dayfi_transaction_fee p seen db ≡ ok (some t, db')
    → t.duplicate ≡ false
    → p.payer_org_id ≡ p.revenue_org_id
    → total db'.wallets ≡ total db.wallets + t.debit_movement.amount
apply_fee_self_mints p seen db t db' applied new one =
    elim (fee_applied p seen db (some t) db' applied) [
      | inl (nothing, same) ↦ absurd (ground arith)
      | inr (inl (u, answer, again, same)) ↦ absurd (ground arith)
      | inr (inr (amount, posted)) ↦
          let dk = trim p.debit_idempotency_key in
          let ck = trim p.credit_idempotency_key in
          let done = post_fee-FeeMoved p amount dk ck db (some t) db' posted in
          ground (
            arith,
            done.answer,
            FeeMoved-mints p amount dk ck db (some t) db' done
                (ap (λ (org : String). wallet_id org p.environment none) one),
          )
    ]

-- ===== src/Ledger/Transfer/Outcome.antt =====
-- What a transfer that is neither refused nor a duplicate has done to the tables.
use dayfi_backend.Base.{
  ℕ, ◌≡◌, ◌≢◌, arith, String, List, some, true, false, inl, inr, ◌⊎◌, trim, str_eq, eq_iff,
  Option-cases, Bool-cases, is_empty, ◌||◌,
}
use dayfi_backend.Ledger.Types.{
  WalletId, LedgerMovement, LedgerError, idempotency_required, self_transfer, transfer_inconsistent,
  ok, err, parse_amount, Result,
}
use dayfi_backend.Ledger.Store.{Db, wallet_id, find_movement}
use dayfi_backend.Ledger.Transfer.{
  TransferParams, TransferResult, post_transfer, transfer_run, transfer_seen,
  transfer_available_balance,
}
use dayfi_backend.Ledger.Store.Ensure.{
  ensured, wallet_at, wallet_at-id, wallet_at-ensured, ensure_wallet_account_lem,
  lock_wallet_row-found, find_wallet-ensured_first, find_wallet-ensured_second,
}
use dayfi_backend.Ledger.Write.Posting.{Result-cases}
use dayfi_backend.Ledger.Transfer.Legs.{Moved, move_available-Moved}

module _ (p : TransferParams) where
  abbrev pub sender_id : WalletId
  sender_id = wallet_id p.sender_org_id p.environment p.asset

  abbrev pub recipient_id : WalletId
  recipient_id = wallet_id p.recipient_org_id p.environment p.asset

  abbrev pub both_ensured : Db → Db
  both_ensured db = record db { wallets = ensured recipient_id (ensured sender_id db.wallets) }

  post_transfer-moves :
      (amount : ℕ) (debit_key credit_key : String) (db : Db) (r : TransferResult) (db' : Db)
      → post_transfer p amount debit_key credit_key db ≡ ok (r, db')
      → Moved p amount debit_key credit_key
          (wallet_at sender_id db.wallets)
          (wallet_at recipient_id db.wallets)
          (both_ensured db)
          r
          db'
  unfolding post_transfer
  post_transfer-moves amount debit_key credit_key db r db' h =
      let ws = db.wallets in
      let once : Db = record db { wallets = ensured sender_id ws } in
      move_available-Moved p amount debit_key credit_key (wallet_at sender_id ws)
        (wallet_at recipient_id ws) (both_ensured db) r db'
        (ground (
          arith,
          ensure_wallet_account_lem sender_id db,
          ensure_wallet_account_lem recipient_id once,
          wallet_at-ensured sender_id recipient_id ws,
          wallet_at-id sender_id ws,
          wallet_at-id recipient_id ws,
          lock_wallet_row-found sender_id (both_ensured db) (wallet_at sender_id ws)
              (find_wallet-ensured_first sender_id recipient_id ws),
          lock_wallet_row-found recipient_id (both_ensured db) (wallet_at recipient_id ws)
              (find_wallet-ensured_second sender_id recipient_id ws),
        ))

  -- How a transfer can end.
  abbrev pub TransferOutcome : List LedgerMovement → Db → Result TransferResult × Db → Type 0
  TransferOutcome seen db out =
      ((e : LedgerError) × (out ≡ (err e, db)))
      ⊎ ((d : LedgerMovement) × (c : LedgerMovement) × (out
            ≡ (ok (record { debit_movement = d; credit_movement = c; duplicate = true }), db))
          × (find_movement (trim p.debit_idempotency_key) seen ≡ some d)
          × (find_movement (trim p.credit_idempotency_key) seen ≡ some c))
      ⊎ ((amount : ℕ) × (r : TransferResult) × (db' : Db) × (out ≡ (ok r, db'))
          × (p.sender_org_id ≢ p.recipient_org_id)
          × (parse_amount p.amount ≡ ok amount)
          × Moved p amount (trim p.debit_idempotency_key) (trim p.credit_idempotency_key)
              (wallet_at sender_id db.wallets) (wallet_at recipient_id db.wallets) (both_ensured db)
              r db')

  module _ (seen : List LedgerMovement) (db : Db) where
    transfer_keyed :
        (amount : ℕ)
        → parse_amount p.amount ≡ ok amount
        → (is_empty (trim p.debit_idempotency_key) || is_empty (trim p.credit_idempotency_key))
          ≡ false
        → p.sender_org_id ≢ p.recipient_org_id
        → TransferOutcome seen db (transfer_available_balance p seen db)
    unfolding transfer_available_balance transfer_run transfer_seen
    transfer_keyed amount parsed keyed apart =
        let dk = trim p.debit_idempotency_key in
        let ck = trim p.credit_idempotency_key in
        let orgs : str_eq p.sender_org_id p.recipient_org_id ≡ false =
          ground (arith, eq_iff p.sender_org_id p.recipient_org_id) in
        elim (Option-cases (find_movement dk seen)) [
          | inr (d, d_found) ↦ elim (Option-cases (find_movement ck seen)) [
            | inr (c, c_found) ↦ inr (inl (d, c, ground arith, d_found, c_found))
            | inl c_new ↦ inl (transfer_inconsistent, ground arith)
          ]
          | inl d_new ↦ elim (Option-cases (find_movement ck seen)) [
            | inr (c, c_found) ↦ inl (transfer_inconsistent, ground arith)
            | inl c_new ↦ elim (Result-cases (post_transfer p amount dk ck db)) [
              | inl (e, failed) ↦ inl (e, ground arith)
              | inr ((r, db'), done) ↦ inr (
                  inr (
                    amount,
                    r,
                    db',
                    ground arith,
                    apart,
                    parsed,
                    post_transfer-moves amount dk ck db r db' done,
                  ))
            ]
          ]
        ]

    pub transfer-Outcome : TransferOutcome seen db (transfer_available_balance p seen db)
    unfolding transfer_available_balance transfer_run
    transfer-Outcome = elim (Result-cases (parse_amount p.amount)) [
      | inl (e, failed) ↦ inl (e, ground arith)
      | inr (amount, parsed) ↦
          elim (Bool-cases
            (is_empty (trim p.debit_idempotency_key) || is_empty (trim p.credit_idempotency_key))) [
              | inl empty ↦ inl (idempotency_required, ground arith)
              | inr keyed ↦ elim (Bool-cases (str_eq p.sender_org_id p.recipient_org_id)) [
                | inl same ↦ inl (self_transfer, ground arith)
                | inr apart ↦
                    transfer_keyed amount parsed keyed
                      (λ e. ground (arith, eq_iff p.sender_org_id p.recipient_org_id))
              ]
            ]
    ]

-- ===== src/Ledger/Fee/Legs.antt =====
-- The transaction fee: money moves from the payer to the revenue wallet, unless they are one wallet.
use dayfi_backend.Base.{
  ℕ, ◌+◌, ◌-◌, ◌≤◌, ◌≡◌, arith, String, List, ◌∷◌, none, some, Option, inl, inr, false,
}
use dayfi_backend.Ledger.Types.{
  WalletId, WalletAccount, Balances, LedgerMovement, ok, credit, debit,
}
use dayfi_backend.Ledger.Store.{Db, set_balances, wallet_id, update_balances}
use dayfi_backend.Ledger.Transfer.{TransferResult}
use dayfi_backend.Ledger.Fee.{FeeParams, fee_leg, move_fee, post_fee}
use dayfi_backend.Ledger.Store.Rows.{insert_movement-cases}
use dayfi_backend.Ledger.Store.Ensure.{
  ensured, wallet_at, wallet_at-id, wallet_at-ensured, ensure_wallet_account_lem,
  lock_wallet_row-found, find_wallet-ensured_first, find_wallet-ensured_second,
}

module _ (p : FeeParams) (amount : ℕ) (debit_key credit_key : String)
    (payer revenue : WalletAccount) where
  abbrev pub fee_taken : Balances
  fee_taken = record payer.balances { available = payer.balances.available - amount }

  abbrev pub fee_given : Balances
  fee_given = record revenue.balances { available = revenue.balances.available + amount }

  abbrev pub fee_debit : LedgerMovement
  fee_debit = fee_leg p debit "fee_debit" p.payer_reference_id debit_key amount payer fee_taken

  abbrev pub fee_credit : LedgerMovement
  fee_credit =
      fee_leg p credit "fee_revenue" p.revenue_reference_id credit_key amount revenue fee_given

  pub record FeeMoved (db : Db) (r : Option TransferResult) (db' : Db) : Type 0 where
    pub covered : amount ≤ payer.balances.available
    pub answer :
        r
        ≡ some
            (record { debit_movement = fee_debit; credit_movement = fee_credit; duplicate = false })
    pub left : db' ≡ record {
      wallets = set_balances revenue.id fee_given (set_balances payer.id fee_taken db.wallets);
      movements = fee_credit ∷ fee_debit ∷ db.movements;
    }

  move_fee-FeeMoved :
      (db : Db) (r : Option TransferResult) (db' : Db)
      → move_fee p amount debit_key credit_key payer revenue db ≡ ok (r, db')
      → FeeMoved db r db'
  unfolding move_fee update_balances
  move_fee-FeeMoved db r db' h =
      let moved : List WalletAccount =
        set_balances revenue.id fee_given (set_balances payer.id fee_taken db.wallets) in
      let once : Db = record { wallets = moved; movements = db.movements } in
      let twice : Db = record { wallets = moved; movements = fee_debit ∷ db.movements } in
      elim (insert_movement-cases fee_debit once) [
        | inl (e, failed) ↦ absurd (ground arith)
        | inr (first, positive, debit_new) ↦ elim (insert_movement-cases fee_credit twice) [
          | inl (e, failed) ↦ absurd (ground arith)
          | inr (second, also, credit_new) ↦ record {
            covered = ground arith;
            answer = ground arith;
            left = ground arith;
          }
        ]
      ]

abbrev pub payer_id : FeeParams → WalletId
payer_id p = wallet_id p.payer_org_id p.environment none

abbrev pub revenue_id : FeeParams → WalletId
revenue_id p = wallet_id p.revenue_org_id p.environment none

module _ (p : FeeParams) (amount : ℕ) (debit_key credit_key : String) (db : Db) where
  abbrev pub fee_ensured : Db
  fee_ensured = record db { wallets = ensured (revenue_id p) (ensured (payer_id p) db.wallets) }

  pub post_fee-FeeMoved :
      (r : Option TransferResult) (db' : Db)
      → post_fee p amount debit_key credit_key db ≡ ok (r, db')
      → FeeMoved p amount debit_key credit_key
          (wallet_at (payer_id p) db.wallets)
          (wallet_at (revenue_id p) db.wallets)
          fee_ensured
          r
          db'
  unfolding post_fee
  post_fee-FeeMoved r db' h =
      let ws = db.wallets in
      let once : Db = record db { wallets = ensured (payer_id p) ws } in
      move_fee-FeeMoved p amount debit_key credit_key (wallet_at (payer_id p) ws)
        (wallet_at (revenue_id p) ws) fee_ensured r db'
        (ground (
          arith,
          ensure_wallet_account_lem (payer_id p) db,
          ensure_wallet_account_lem (revenue_id p) once,
          wallet_at-ensured (payer_id p) (revenue_id p) ws,
          wallet_at-id (payer_id p) ws,
          wallet_at-id (revenue_id p) ws,
          lock_wallet_row-found (payer_id p) fee_ensured (wallet_at (payer_id p) ws)
              (find_wallet-ensured_first (payer_id p) (revenue_id p) ws),
          lock_wallet_row-found (revenue_id p) fee_ensured (wallet_at (revenue_id p) ws)
              (find_wallet-ensured_second (payer_id p) (revenue_id p) ws),
        ))

-- ===== src/Ledger/Fee/Totals.antt =====
-- The sum of all balances after a transaction fee.
use dayfi_backend.Base.{ℕ, ◌+◌, ◌≡◌, ◌≢◌, arith, ap, String, List, some, Option}
use dayfi_backend.Ledger.Types.{WalletId, WalletAccount}
use dayfi_backend.Ledger.Store.{Db, find_wallet, set_balances}
use dayfi_backend.Ledger.Transfer.{TransferResult}
use dayfi_backend.Ledger.Fee.{FeeParams}
use dayfi_backend.Ledger.Store.Rows.{
  total, held, same_id_iff, find_wallet-set_balances, total-set_balances,
}
use dayfi_backend.Ledger.Store.Ensure.{
  wallet_at, wallet_at-id, total-ensured, find_wallet-ensured_first, find_wallet-ensured_second,
}
use dayfi_backend.Ledger.Fee.Legs.{
  FeeMoved, fee_taken, fee_given, payer_id, revenue_id, fee_ensured,
}

module _ (p : FeeParams) (amount : ℕ) (debit_key credit_key : String) (db : Db) where
  abbrev payer : WalletAccount
  payer = wallet_at (payer_id p) db.wallets

  abbrev revenue : WalletAccount
  revenue = wallet_at (revenue_id p) db.wallets

  -- The wallets between the two updates.
  abbrev between : List WalletAccount
  between =
      set_balances (payer_id p) (fee_taken p amount debit_key credit_key payer revenue)
        (fee_ensured p amount debit_key credit_key db).wallets

  total-between :
      total between + held payer.balances
      ≡ total db.wallets + held (fee_taken p amount debit_key credit_key payer revenue)
  total-between = rw (
    total-set_balances (payer_id p) (fee_taken p amount debit_key credit_key payer revenue)
        (fee_ensured p amount debit_key credit_key db).wallets payer
        (find_wallet-ensured_first (payer_id p) (revenue_id p) db.wallets),
    total-ensured,
    total-ensured,
  )

  -- The row that the second update overwrites: the revenue wallet, or what the first update wrote.
  abbrev Overwritten : WalletAccount → Type 0
  Overwritten w = find_wallet (revenue_id p) between ≡ some w

  module _ (r : Option TransferResult) (db' : Db)
      (done : FeeMoved p amount debit_key credit_key payer revenue
        (fee_ensured p amount debit_key credit_key db)
        r
        db') where
    FeeMoved-total :
        (w : WalletAccount)
        → Overwritten w
        → total db'.wallets + held w.balances + held payer.balances
          ≡ total db.wallets
            + held (fee_taken p amount debit_key credit_key payer revenue)
            + held (fee_given p amount debit_key credit_key payer revenue)
    FeeMoved-total w over =
        rw (done.left, wallet_at-id (payer_id p) db.wallets, wallet_at-id (revenue_id p) db.wallets)
          (omega (
            arith,
            total-between,
            total-set_balances (revenue_id p)
                (fee_given p amount debit_key credit_key payer revenue) between w over,
          ))

    pub FeeMoved-conserves : payer_id p ≢ revenue_id p → total db'.wallets ≡ total db.wallets
    FeeMoved-conserves apart = omega (
      arith,
      done.covered,
      FeeMoved-total revenue (
          ground (
            arith,
            find_wallet-set_balances (payer_id p) (revenue_id p)
                (fee_taken p amount debit_key credit_key payer revenue)
                (fee_ensured p amount debit_key credit_key db).wallets payer
                (find_wallet-ensured_first (payer_id p) (revenue_id p) db.wallets),
            find_wallet-ensured_second (payer_id p) (revenue_id p) db.wallets,
            same_id_iff (revenue_id p) (payer_id p),
          )),
    )

    pub FeeMoved-mints : payer_id p ≡ revenue_id p → total db'.wallets ≡ total db.wallets + amount
    FeeMoved-mints one = omega (
      arith,
      done.covered,
      ap (λ (id : WalletId). held (wallet_at id db.wallets).balances) one,
      FeeMoved-total
          (record payer { balances = fee_taken p amount debit_key credit_key payer revenue })
          (ground (
            arith,
            find_wallet-set_balances (payer_id p) (revenue_id p)
                (fee_taken p amount debit_key credit_key payer revenue)
                (fee_ensured p amount debit_key credit_key db).wallets payer
                (find_wallet-ensured_first (payer_id p) (revenue_id p) db.wallets),
            same_id_iff (revenue_id p) (payer_id p),
          )),
    )

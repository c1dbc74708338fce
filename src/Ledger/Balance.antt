-- ===== src/Ledger/Balance.antt =====
-- `bootstrapOrgWallets` and `getOrgBalance` of infraLedgerService.ts.
use dayfi_backend.Base.{◌≡◌, refl, arith, String, some, Option, true, false, inl, inr, Bool, ◌⊎◌}
use dayfi_backend.Ledger.Types.{
  WalletId, WalletStatus, active, frozen, closed, Balances, WalletAccount, default_infra_asset,
  wallet_closed, ok, err, throw_if,
}
use dayfi_backend.Ledger.Store.{Db, Tx, ◌>>=◌, lift, wallet_id, ensure_wallet_account}
use dayfi_backend.Ledger.Store.Rows.{total}
use dayfi_backend.Ledger.Store.Ensure.{
  ensured, wallet_at, ensure_wallet_account_lem, total-ensured, wallet_at-ensured,
}

unfoldable pub bootstrap_org_wallets : String → Tx WalletAccount
bootstrap_org_wallets org = ensure_wallet_account (wallet_id org "test" (some default_infra_asset))

abbrev is_closed : WalletStatus → Bool
is_closed closed = true
is_closed active = false
is_closed frozen = false

unfoldable pub get_org_balance : String → String → Option String → Tx Balances
get_org_balance org env asset = do
  wallet ← ensure_wallet_account (wallet_id org env asset)
  is_open ← lift (throw_if (is_closed wallet.status) wallet_closed)
  lift (ok wallet.balances)

closed-cases : (s : WalletStatus) → (s ≡ closed) ⊎ (is_closed s ≡ false)
closed-cases closed = inl refl
closed-cases active = inr refl
closed-cases frozen = inr refl

-- Reading a balance fails exactly on a closed wallet; else it gives what the wallet shows, and may
-- create the empty wallet that it reads, which changes neither the sum of all balances nor what any
-- wallet shows.
pub get_org_balance_reads :
    (org env : String) (asset : Option String) (db : Db)
    → (((wallet_at (wallet_id org env asset) db.wallets).status ≡ closed)
        × (get_org_balance org env asset db ≡ err wallet_closed))
      ⊎ ((b : Balances) × (db' : Db) × (get_org_balance org env asset db ≡ ok (b, db'))
          × (b ≡ (wallet_at (wallet_id org env asset) db.wallets).balances)
          × (total db'.wallets ≡ total db.wallets)
          × ((j : WalletId) → wallet_at j db'.wallets ≡ wallet_at j db.wallets))
unfolding get_org_balance
get_org_balance_reads org env asset db =
    let id = wallet_id org env asset in
    let ensured_row = ensure_wallet_account_lem id db in
    elim (closed-cases (wallet_at id db.wallets).status) [
      | inl shut ↦ inl (shut, ground (arith, ensured_row))
      | inr is_open ↦ inr (
        (wallet_at id db.wallets).balances,
        record db { wallets = ensured id db.wallets },
        ground (arith, ensured_row),
        refl,
        total-ensured id db.wallets,
        λ j. wallet_at-ensured id j db.wallets,
      )
    ]

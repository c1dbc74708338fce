-- ===== src/Ledger/Store/Audit.antt =====
-- The invariant of the tables: keys are unique, and each wallet shows what its newest movement recorded.
use dayfi_backend.Base.{◌+◌, ◌≡◌, List, [], ◌∷◌, none, arith, if◌then◌else◌}
use dayfi_backend.Ledger.Types.{WalletId, WalletAccount, Balances, LedgerMovement, same_id}
use dayfi_backend.Ledger.Store.{Db, find_movement, set_balances, no_balances}
use dayfi_backend.Ledger.Store.Rows.{
  held, total, total-set_balances, find_wallet-set_balances, DistinctIds, DistinctKeys,
  set_balances-DistinctIds,
}
use dayfi_backend.Ledger.Store.Ensure.{
  ensured, wallet_at, find_wallet-ensured, find_wallet-ensured_ne, ensured-DistinctIds,
  total-ensured,
}

-- The balances that the newest movement of a wallet recorded; all zero before the first.
unfoldable pub latest : WalletId → List LedgerMovement → Balances
latest id [] = no_balances
latest id (m ∷ ms) = if same_id id m.wallet_id then m.after else latest id ms

pub record IsValid (db : Db) : Type 0 where
  pub distinct_ids : DistinctIds db.wallets
  pub distinct_keys : DistinctKeys db.movements
  pub audited : (id : WalletId) → (wallet_at id db.wallets).balances ≡ latest id db.movements

-- The balances that any wallet shows after a write to the row `i`.
pub wallet_at-set_balances :
    (i j : WalletId) (b : Balances) (ws : List WalletAccount)
    → (wallet_at j (set_balances i b (ensured i ws))).balances
      ≡ (if same_id j i then b else (wallet_at j ws).balances)
unfolding wallet_at
wallet_at-set_balances i j b ws = ground (
  arith,
  find_wallet-set_balances i j b (ensured i ws) (wallet_at i ws) (find_wallet-ensured i ws),
  find_wallet-ensured_ne i j ws,
)

-- The tables after a movement has been posted: its wallet shows what it recorded.
abbrev pub posting : LedgerMovement → Db → Db
posting m db = record {
  wallets = set_balances m.wallet_id m.after (ensured m.wallet_id db.wallets);
  movements = m ∷ db.movements;
}

pub posting-IsValid :
    (db : Db) (m : LedgerMovement)
    → IsValid db
    → find_movement m.idempotency_key db.movements ≡ none
    → IsValid (posting m db)
unfolding latest
posting-IsValid db m v fresh = record {
  distinct_ids =
      set_balances-DistinctIds m.wallet_id m.after (ensured m.wallet_id db.wallets)
        (ensured-DistinctIds m.wallet_id db.wallets v.distinct_ids);
  distinct_keys = (fresh, v.distinct_keys);
  audited = λ id. rw (wallet_at-set_balances, v.audited id);
}

-- The sum of all balances after a write to one row.
pub posted-total :
    (i : WalletId) (b : Balances) (ws : List WalletAccount)
    → total (set_balances i b (ensured i ws)) + held (wallet_at i ws).balances ≡ total ws + held b
posted-total i b ws = rw (
  total-set_balances i b (ensured i ws) (wallet_at i ws) (find_wallet-ensured i ws),
  total-ensured,
)

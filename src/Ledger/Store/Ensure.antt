-- ===== src/Ledger/Store/Ensure.antt =====
-- `ensureWalletAccount`: the wallet is there afterwards, and nothing else has changed.
use dayfi_backend.Base.{
  ◌≡◌, refl, some, none, List, ◌∷◌, arith, inl, inr, Option-cases, if◌then◌else◌,
}
use dayfi_backend.Ledger.Types.{WalletId, WalletAccount, ok, same_id}
use dayfi_backend.Ledger.Store.{
  Db, find_wallet, ensure_wallet_account, fresh_wallet, lock_wallet_row,
}
use dayfi_backend.Ledger.Store.Rows.{same_id_iff, find_wallet-id, total, DistinctIds}

-- The wallets after the look-up.
unfoldable pub ensured : WalletId → List WalletAccount → List WalletAccount
ensured id ws = elim (find_wallet id ws) [ some w ↦ ws | none ↦ fresh_wallet id ∷ ws ]

-- The row that the look-up gives.
unfoldable pub wallet_at : WalletId → List WalletAccount → WalletAccount
wallet_at id ws = elim (find_wallet id ws) [ some w ↦ w | none ↦ fresh_wallet id ]

pub ensure_wallet_account_lem :
    (id : WalletId) (db : Db)
    → ensure_wallet_account id db
      ≡ ok (wallet_at id db.wallets, record db { wallets = ensured id db.wallets })
unfolding ensure_wallet_account ensured wallet_at
ensure_wallet_account_lem id db = ground arith

pub find_wallet-ensured :
    (id : WalletId) (ws : List WalletAccount)
    → find_wallet id (ensured id ws) ≡ some (wallet_at id ws)
unfolding ensured wallet_at find_wallet
find_wallet-ensured id ws = ground (arith, same_id_iff id id)

pub find_wallet-ensured_ne :
    (id j : WalletId) (ws : List WalletAccount)
    → find_wallet j (ensured id ws)
      ≡ (if same_id j id then some (wallet_at id ws) else find_wallet j ws)
unfolding ensured wallet_at find_wallet
find_wallet-ensured_ne id j ws = ground (arith, same_id_iff j id, find_wallet-id id ws)

wallet_at_found :
    (id : WalletId) (ws : List WalletAccount)
    → wallet_at id ws ≡ elim (find_wallet id ws) [ some w ↦ w | none ↦ fresh_wallet id ]
unfolding wallet_at
wallet_at_found id ws = refl

pub wallet_at-id : (id : WalletId) (ws : List WalletAccount) → (wallet_at id ws).id ≡ id
unfolding wallet_at
wallet_at-id id ws = elim (Option-cases (find_wallet id ws)) [
  | inl missing ↦ ground arith
  | inr (w, found) ↦ ground (arith, find_wallet-id id ws w found)
]

pub lock_wallet_row-ensured :
    (id : WalletId) (ws : List WalletAccount) (db : Db)
    → db.wallets ≡ ensured id ws
    → lock_wallet_row id db ≡ ok (wallet_at id ws, db)
unfolding lock_wallet_row
lock_wallet_row-ensured id ws db h = ground (arith, find_wallet-ensured id ws)

pub total-ensured : (id : WalletId) (ws : List WalletAccount) → total (ensured id ws) ≡ total ws
unfolding ensured
total-ensured id ws = ground arith

pub ensured-DistinctIds :
    (id : WalletId) (ws : List WalletAccount) → DistinctIds ws → DistinctIds (ensured id ws)
unfolding ensured
ensured-DistinctIds id ws h = ground arith

-- Reading a wallet does not depend on which wallets have been made sure of.
pub wallet_at-ensured :
    (i j : WalletId) (ws : List WalletAccount) → wallet_at j (ensured i ws) ≡ wallet_at j ws
unfolding wallet_at
wallet_at-ensured i j ws =
    ground (arith, find_wallet-ensured_ne i j ws, same_id_iff j i, wallet_at_found i ws)

pub lock_wallet_row-found :
    (id : WalletId) (db : Db) (w : WalletAccount)
    → find_wallet id db.wallets ≡ some w
    → lock_wallet_row id db ≡ ok (w, db)
unfolding lock_wallet_row
lock_wallet_row-found id db w h = ground arith

-- Two wallets have been made sure of: both are there, also if they are one.
pub find_wallet-ensured_first :
    (i j : WalletId) (ws : List WalletAccount)
    → find_wallet i (ensured j (ensured i ws)) ≡ some (wallet_at i ws)
find_wallet-ensured_first i j ws = ground (
  arith,
  find_wallet-ensured_ne j i (ensured i ws),
  same_id_iff i j,
  find_wallet-ensured i ws,
  wallet_at-ensured i j ws,
)

pub find_wallet-ensured_second :
    (i j : WalletId) (ws : List WalletAccount)
    → find_wallet j (ensured j (ensured i ws)) ≡ some (wallet_at j ws)
find_wallet-ensured_second i j ws =
    ground (arith, find_wallet-ensured j (ensured i ws), wallet_at-ensured i j ws)

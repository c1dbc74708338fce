-- ===== src/Ledger/Store/Commute.antt =====
-- Making sure of one wallet and writing another commute.
use dayfi_backend.Base.{◌≡◌, ◌≢◌, refl, arith, List, [], ◌∷◌}
use dayfi_backend.Ledger.Types.{WalletId, WalletAccount, Balances}
use dayfi_backend.Ledger.Store.{find_wallet, set_balances}
use dayfi_backend.Ledger.Store.Rows.{same_id_iff}
use dayfi_backend.Ledger.Store.Ensure.{ensured}

find_wallet-set_balances_ne :
    (i j : WalletId) (b : Balances) (ws : List WalletAccount)
    → j ≢ i
    → find_wallet j (set_balances i b ws) ≡ find_wallet j ws
unfolding find_wallet set_balances
find_wallet-set_balances_ne i j b [] h = refl
find_wallet-set_balances_ne i j b (w ∷ ws) h =
    ground (arith, same_id_iff i w.id, same_id_iff j w.id, find_wallet-set_balances_ne i j b ws h)

pub ensured-set_balances :
    (i j : WalletId) (b : Balances) (ws : List WalletAccount)
    → j ≢ i
    → ensured j (set_balances i b ws) ≡ set_balances i b (ensured j ws)
unfolding ensured set_balances
ensured-set_balances i j b ws h =
    ground (arith, find_wallet-set_balances_ne i j b ws h, same_id_iff i j)

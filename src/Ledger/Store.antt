-- ===== src/Ledger/Store.antt =====
-- The two tables of infraLedgerService.ts and its queries on them. A transaction's body gives a result
-- and the tables that it leaves; an error gives none, since the database rolls back.
pub mod Rows
pub mod Ensure
pub mod Commute
pub mod Audit
use dayfi_backend.Base.{
  String, Bool, false, Option, none, some, List, [], ◌∷◌, ◌==◌, ◌&&◌, ◌||◌, if◌then◌else◌, str_eq,
}
use dayfi_backend.Ledger.Types.{
  WalletId, Balances, active, WalletAccount, LedgerMovement, unique_violation, check_violation,
  no_row, Result, ok, err, same_id, same_env, normalize_env, normalize_asset,
}

-- Movements stand newest first.
pub record Db : Type 0 where
  pub wallets : List WalletAccount
  pub movements : List LedgerMovement

-- A statement sequence inside a database transaction.
abbrev pub Tx : Type 0 → Type 0
Tx A = Db → Result (A × Db)

infixl 5 ◌>>=◌
abbrev pub ◌>>=◌ : {A B : Type 0} → Tx A → (A → Tx B) → Tx B
◌>>=◌ m f db = elim (m db) [ ok (a, db') ↦ f a db' | err e ↦ err e ]

abbrev pub lift : {A : Type 0} → Result A → Tx A
lift (ok a) db = ok (a, db)
lift (err e) db = err e

-- `db.tx(body)`: commit on success, roll back on an error.
abbrev pub tx : {A : Type 0} → Tx A → Db → Result A × Db
tx body db = elim (body db) [ ok (a, db') ↦ (ok a, db') | err e ↦ (err e, db) ]

unfoldable pub find_wallet : WalletId → List WalletAccount → Option WalletAccount
find_wallet id [] = none
find_wallet id (w ∷ ws) = if same_id id w.id then some w else find_wallet id ws

unfoldable pub find_movement : String → List LedgerMovement → Option LedgerMovement
find_movement key [] = none
find_movement key (m ∷ ms) = if str_eq key m.idempotency_key then some m else find_movement key ms

-- `UPDATE infra_wallet_accounts SET … WHERE id = $1`, on the balance columns.
unfoldable pub set_balances : WalletId → Balances → List WalletAccount → List WalletAccount
set_balances id b [] = []
set_balances id b (w ∷ ws) =
    if same_id id w.id then record w { balances = b } ∷ ws else w ∷ set_balances id b ws

unfoldable pub wallet_id : String → String → Option String → WalletId
wallet_id org env asset = record {
  org_id = org;
  environment = normalize_env env;
  asset = normalize_asset asset;
}

abbrev pub no_balances : Balances
no_balances = record { available = 0; pending = 0; locked = 0 }

abbrev pub fresh_wallet : WalletId → WalletAccount
fresh_wallet id = record { id = id; status = active; balances = no_balances }

-- The row of the key, inserted as an empty active wallet if there is none.
unfoldable pub ensure_wallet_account : WalletId → Tx WalletAccount
ensure_wallet_account id db = elim (find_wallet id db.wallets) [
  | some w ↦ ok (w, db)
  | none ↦ ok (fresh_wallet id, record db { wallets = fresh_wallet id ∷ db.wallets })
]

unfoldable pub lock_wallet_row : WalletId → Tx WalletAccount
lock_wallet_row id db = elim (find_wallet id db.wallets) [ some w ↦ ok (w, db) | none ↦ err no_row ]

unfoldable pub update_balances : WalletId → Balances → Tx (Unit {0})
update_balances id b db = ok (tt, record db { wallets = set_balances id b db.wallets })

abbrev is_text : Option String → String → Bool
is_text none s = false
is_text (some t) s = str_eq t s

-- Two optional texts that are both there and equal.
abbrev same_text : Option String → Option String → Bool
same_text none other = false
same_text (some s) other = is_text other s

-- The columns of the unique index `uq_infra_ledger_ref_movement`, where neither reference is null.
unfoldable pub same_event : LedgerMovement → LedgerMovement → Bool
same_event m n =
    str_eq m.wallet_id.org_id n.wallet_id.org_id
    && same_env m.wallet_id.environment n.wallet_id.environment
    && same_text m.reference_type n.reference_type
    && same_text m.reference_id n.reference_id
    && str_eq m.movement_type n.movement_type

unfoldable pub has_event : LedgerMovement → List LedgerMovement → Bool
unfolding same_event
has_event m [] = false
has_event m (n ∷ ms) = same_event m n || has_event m ms

-- The insert, with the table's CHECK (amount > 0), UNIQUE (idempotency_key) and unique index on the
-- referenced event.
unfoldable pub insert_movement : LedgerMovement → Tx LedgerMovement
insert_movement m db =
    if m.amount == 0
    then err check_violation
    else elim (find_movement m.idempotency_key db.movements) [
      | some rival ↦ err unique_violation
      | none ↦
          if has_event m db.movements
          then err unique_violation
          else ok (m, record db { movements = m ∷ db.movements })
    ]

-- ===== src/Ledger/Store/Rows.antt =====
-- The queries of Ledger/Store: which rows they find, and what an update does to the sums.
use dayfi_backend.Base.{
  ℕ, ◌+◌, ◌≡◌, refl, ◌↔◌, String, true, none, some, ◌⊎◌, inl, inr, ◌≢◌, ◌==◌, Bool-cases,
  Option-cases, List, [], ◌∷◌, arith, if◌then◌else◌, eq_refl, eq_iff,
}
use dayfi_backend.Ledger.Types.{
  WalletId, Environment, test, live, Balances, WalletAccount, LedgerMovement, same_env, same_id,
  LedgerError, ok, err, check_violation, unique_violation,
}
use dayfi_backend.Ledger.Store.{
  Db, insert_movement, has_event, find_wallet, find_movement, set_balances,
}

same_env_iff : (a b : Environment) → (same_env a b ≡ true) ↔ (a ≡ b)
same_env_iff test test = ground arith
same_env_iff live live = ground arith
same_env_iff test live = ground arith
same_env_iff live test = ground arith

pub same_id_iff : (a b : WalletId) → (same_id a b ≡ true) ↔ (a ≡ b)
unfolding same_id
same_id_iff a b = ground (
  arith,
  eq_iff a.org_id b.org_id,
  same_env_iff a.environment b.environment,
  eq_iff a.asset b.asset,
)

-- The money of a wallet, whatever it is reserved for.
abbrev pub held : Balances → ℕ
held b = b.available + b.pending + b.locked

abbrev pub total : List WalletAccount → ℕ
total [] = 0
total (w ∷ ws) = held w.balances + total ws

-- No two rows have the same key.
abbrev pub DistinctIds : List WalletAccount → Type 0
DistinctIds [] = Unit
DistinctIds (w ∷ ws) = (find_wallet w.id ws ≡ none) × DistinctIds ws

abbrev pub DistinctKeys : List LedgerMovement → Type 0
DistinctKeys [] = Unit
DistinctKeys (m ∷ ms) = (find_movement m.idempotency_key ms ≡ none) × DistinctKeys ms

pub find_wallet-id :
    (id : WalletId) (ws : List WalletAccount) (w : WalletAccount)
    → find_wallet id ws ≡ some w
    → w.id ≡ id
unfolding find_wallet
find_wallet-id id [] w h = ground arith
find_wallet-id id (v ∷ ws) w h = ground (arith, same_id_iff id v.id, find_wallet-id id ws w)

pub find_wallet-set_balances :
    (i j : WalletId) (b : Balances) (ws : List WalletAccount) (w : WalletAccount)
    → find_wallet i ws ≡ some w
    → find_wallet j (set_balances i b ws)
      ≡ (if same_id j i then some (record w { balances = b }) else find_wallet j ws)
unfolding find_wallet set_balances
find_wallet-set_balances i j b [] w h = ground arith
find_wallet-set_balances i j b (v ∷ ws) w h = ground (
  arith,
  same_id_iff i v.id,
  same_id_iff j v.id,
  same_id_iff j i,
  find_wallet-set_balances i j b ws w,
)

pub total-set_balances :
    (i : WalletId) (b : Balances) (ws : List WalletAccount) (w : WalletAccount)
    → find_wallet i ws ≡ some w
    → total (set_balances i b ws) + held w.balances ≡ total ws + held b
unfolding find_wallet set_balances
total-set_balances i b [] w h = ground arith
total-set_balances i b (v ∷ ws) w h = ground (arith, total-set_balances i b ws w)

find_wallet-none-set_balances :
    (i j : WalletId) (b : Balances) (ws : List WalletAccount)
    → find_wallet j ws ≡ none
    → find_wallet j (set_balances i b ws) ≡ none
unfolding find_wallet set_balances
find_wallet-none-set_balances i j b [] h = refl
find_wallet-none-set_balances i j b (v ∷ ws) h =
    ground (arith, find_wallet-none-set_balances i j b ws)

pub set_balances-DistinctIds :
    (i : WalletId) (b : Balances) (ws : List WalletAccount)
    → DistinctIds ws
    → DistinctIds (set_balances i b ws)
unfolding set_balances
set_balances-DistinctIds i b [] h = tt
set_balances-DistinctIds i b (v ∷ ws) h =
    ground
      (arith, set_balances-DistinctIds i b ws h.1, find_wallet-none-set_balances i v.id b ws h.0)

pub find_movement-head :
    (m : LedgerMovement) (ms : List LedgerMovement)
    → find_movement m.idempotency_key (m ∷ ms) ≡ some m
unfolding find_movement
find_movement-head m ms = ground (arith, eq_refl m.idempotency_key)

pub find_movement-key :
    (key : String) (ms : List LedgerMovement) (m : LedgerMovement)
    → find_movement key ms ≡ some m
    → m.idempotency_key ≡ key
unfolding find_movement
find_movement-key key [] m h = ground arith
find_movement-key key (v ∷ ms) m h =
    ground (arith, eq_iff key v.idempotency_key, find_movement-key key ms m)

-- An insert fails, or adds the movement, whose amount is positive and whose key is new.
pub insert_movement-cases :
    (m : LedgerMovement) (db : Db)
    → ((e : LedgerError) × (insert_movement m db ≡ err e))
      ⊎ ((insert_movement m db ≡ ok (m, record db { movements = m ∷ db.movements }))
          × (m.amount ≢ 0)
          × (find_movement m.idempotency_key db.movements ≡ none))
unfolding insert_movement
insert_movement-cases m db = elim (Bool-cases (m.amount == 0)) [
  | inl zero_amount ↦ inl (check_violation, ground arith)
  | inr positive ↦ elim (Option-cases (find_movement m.idempotency_key db.movements)) [
    | inr (rival, taken) ↦ inl (unique_violation, ground arith)
    | inl new_key ↦ elim (Bool-cases (has_event m db.movements)) [
      | inl known ↦ inl (unique_violation, ground arith)
      | inr new_event ↦ inr (ground arith, ground arith, new_key)
    ]
  ]
]

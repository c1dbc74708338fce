-- ===== src/Ledger/Write/Posting.antt =====
-- What a posted movement has done to the tables, for each of the seven operations.
use dayfi_backend.Base.{
  ℕ, ◌≡◌, ◌≢◌, refl, String, arith, none, ◌∷◌, true, ◌⊎◌, inl, inr, if◌then◌else◌,
}
use dayfi_backend.Ledger.Types.{
  WalletId, WalletAccount, Balances, LedgerWriteParams, LedgerMovement, LedgerError, Result, ok,
  err, wallet_inactive, is_active,
}
use dayfi_backend.Ledger.Store.{
  Db, find_movement, set_balances, wallet_id, insert_movement, update_balances,
}
use dayfi_backend.Ledger.Write.{WriteOp, Posted, posted, after_of, movement_of, post_movement}
use dayfi_backend.Ledger.Store.Ensure.{
  ensured, wallet_at, wallet_at-id, ensure_wallet_account_lem, lock_wallet_row-ensured,
}

-- The tables after the movement `m` has left the balances `b`.
abbrev pub posted_db : WalletId → Balances → LedgerMovement → Db → Db
posted_db id b m db = record {
  wallets = set_balances id b (ensured id db.wallets);
  movements = m ∷ db.movements;
}

pub Result-cases :
    {A : Type 0} (r : Result A) → ((e : LedgerError) × (r ≡ err e)) ⊎ ((a : A) × (r ≡ ok a))
Result-cases (err e) = inl (e, refl)
Result-cases (ok a) = inr (a, refl)

-- The operation, on the row that it finds or creates.
unfoldable pub post_at :
    WriteOp → LedgerWriteParams → ℕ → String → WalletAccount → Db → Result (Posted × Db)
post_at op p amount key w db =
    if is_active w.status
    then elim (after_of op amount w.balances) [
      | err e ↦ err e
      | ok b ↦
          elim (insert_movement (movement_of op p amount key w b)
            (record db { wallets = set_balances w.id b db.wallets })) [
              | err e ↦ err e
              | ok (m, db') ↦ ok (posted m, db')
            ]
    ]
    else err wallet_inactive

module _ (op : WriteOp) (p : LedgerWriteParams) (amount : ℕ) (key : String) (db : Db) where
  abbrev pub target : WalletId
  target = wallet_id p.org_id p.environment p.asset

  abbrev pub row : WalletAccount
  row = wallet_at target db.wallets

  pub post_movement-at :
      post_movement op p amount key db
      ≡ post_at op p amount key row (record db { wallets = ensured target db.wallets })
  unfolding post_movement post_at update_balances
  post_movement-at = ground (
    arith,
    ensure_wallet_account_lem target db,
    wallet_at-id target db.wallets,
    lock_wallet_row-ensured target db.wallets (record db { wallets = ensured target db.wallets }),
  )

  -- The row that the operation works on, and the balances that it leaves there.
  pub record Posts (r : Posted) (db' : Db) : Type 0 where
    pub after : Balances
    pub is_open : is_active row.status ≡ true
    pub computed : after_of op amount row.balances ≡ ok after
    pub positive : amount ≢ 0
    pub unused : find_movement key db.movements ≡ none
    pub answer : r ≡ posted (movement_of op p amount key row after)
    pub left : db' ≡ posted_db target after (movement_of op p amount key row after) db

  post_at-Posts :
      (r : Posted) (db' : Db)
      → post_at op p amount key row (record db { wallets = ensured target db.wallets })
        ≡ ok (r, db')
      → Posts r db'
  unfolding post_at insert_movement
  post_at-Posts r db' h = elim (Result-cases (after_of op amount row.balances)) [
    | inl (e, failed) ↦ ground arith
    | inr (b, done) ↦ record {
      after = b;
      is_open = ground arith;
      computed = done;
      positive = ground arith;
      unused = ground arith;
      answer = ground arith;
      left = ground (arith, wallet_at-id target db.wallets);
    }
  ]

  pub post_movement-Posts :
      (r : Posted) (db' : Db) → post_movement op p amount key db ≡ ok (r, db') → Posts r db'
  post_movement-Posts r db' h = post_at-Posts r db' (rw post_movement-at at h)

-- ===== src/Ledger/Write/Conservation.antt =====
-- What each operation does to the money: how much comes in or goes out, and that no other wallet moves.
use dayfi_backend.Base.{
  ℕ, ◌+◌, ◌≡◌, ◌≢◌, refl, subst, ap, ◌∷◌, arith, List, inl, inr, ◌⊎◌, true, false, String, trim,
  if◌then◌else◌,
}
use dayfi_backend.Ledger.Types.{
  WalletId, Balances, LedgerWriteParams, LedgerMovement, Result, ok, err, same_id, parse_amount,
}
use dayfi_backend.Ledger.Store.{Db, wallet_id}
use dayfi_backend.Ledger.Write.{
  WriteOp, credit_org, credit_pending, release_pending, debit_org, lock_funds, release_funds,
  finalize_debit, Posted, movement_of, after_of, credit_after, credit_pending_after,
  release_pending_after, debit_after, lock_after, release_after, finalize_after, ledger_write,
}
use dayfi_backend.Ledger.Store.Rows.{held, same_id_iff, total, total-set_balances}
use dayfi_backend.Ledger.Store.Ensure.{
  ensured, wallet_at, wallet_at-id, find_wallet-ensured, total-ensured,
}
use dayfi_backend.Ledger.Write.Posting.{Posts, posted_db, row, target}
use dayfi_backend.Ledger.Write.Outcome.{ledger_write-Outcome}
use dayfi_backend.Ledger.Store.Audit.{IsValid, posting-IsValid, wallet_at-set_balances}

-- What an operation brings into the ledger from outside, and what it pays out of it.
abbrev pub inflow : WriteOp → ℕ → ℕ
inflow credit_org amount = amount
inflow credit_pending amount = amount
inflow _ amount = 0

abbrev pub outflow : WriteOp → ℕ → ℕ
outflow debit_org amount = amount
outflow finalize_debit amount = amount
outflow _ amount = 0

-- One row gains the inflow and loses the outflow, whatever moves between its three columns.
held-after_of :
    (op : WriteOp) (amount : ℕ) (b : Balances) (b' : Balances)
    → after_of op amount b ≡ ok b'
    → held b' + outflow op amount ≡ held b + inflow op amount
unfolding after_of credit_after credit_pending_after release_pending_after debit_after lock_after
    release_after finalize_after
held-after_of credit_org amount b b' h = ground arith
held-after_of _ amount b b' h = ground arith

Posts-total :
    (op : WriteOp) (p : LedgerWriteParams) (amount : ℕ) (key : String) (db : Db) (r : Posted)
    (db' : Db)
    → Posts op p amount key db r db'
    → total db'.wallets + outflow op amount ≡ total db.wallets + inflow op amount
Posts-total op p amount key db r db' done =
    let id = target op p amount key db in
    rw done.left (
      omega (
        arith,
        total-set_balances id done.after (ensured id db.wallets) (wallet_at id db.wallets)
            (find_wallet-ensured id db.wallets),
        total-ensured id db.wallets,
        held-after_of op amount (wallet_at id db.wallets).balances done.after done.computed,
      ))

-- What any wallet shows after a new movement has been posted.
pub Posts-shown :
    (op : WriteOp) (p : LedgerWriteParams) (amount : ℕ) (key : String) (db : Db) (r : Posted)
    (db' : Db) (done : Posts op p amount key db r db') (j : WalletId)
    → (wallet_at j db'.wallets).balances ≡ (
        if same_id j (target op p amount key db)
        then done.after
        else (wallet_at j db.wallets).balances)
Posts-shown op p amount key db r db' done j =
    rw done.left (wallet_at-set_balances (target op p amount key db) j done.after db.wallets)

Posts-IsValid :
    (op : WriteOp) (p : LedgerWriteParams) (amount : ℕ) (key : String) (db : Db) (r : Posted)
    (db' : Db) (done : Posts op p amount key db r db')
    → IsValid db
    → IsValid (
        posted_db
          (target op p amount key db)
          done.after
          (movement_of op p amount key (row op p amount key db) done.after)
          db)
Posts-IsValid op p amount key db r db' done v =
    subst
      (λ id. IsValid (
        posted_db id done.after (movement_of op p amount key (row op p amount key db) done.after)
          db))
      (wallet_at-id (target op p amount key db) db.wallets)
      (posting-IsValid db (movement_of op p amount key (row op p amount key db) done.after) v
        done.unused)

-- What an operation does to each column of its own wallet.
abbrev pub Shifts : WriteOp → ℕ → Balances → Balances → Type 0
Shifts credit_org n b b' =
    (b'.available ≡ b.available + n) × (b'.pending ≡ b.pending) × (b'.locked ≡ b.locked)
Shifts credit_pending n b b' =
    (b'.available ≡ b.available) × (b'.pending ≡ b.pending + n) × (b'.locked ≡ b.locked)
Shifts release_pending n b b' =
    (b'.available ≡ b.available + n) × (b'.pending + n ≡ b.pending) × (b'.locked ≡ b.locked)
Shifts debit_org n b b' =
    (b'.available + n ≡ b.available) × (b'.pending ≡ b.pending) × (b'.locked ≡ b.locked)
Shifts lock_funds n b b' =
    (b'.available + n ≡ b.available) × (b'.pending ≡ b.pending) × (b'.locked ≡ b.locked + n)
Shifts release_funds n b b' =
    (b'.available ≡ b.available + n) × (b'.pending ≡ b.pending) × (b'.locked + n ≡ b.locked)
Shifts finalize_debit n b b' =
    (b'.available ≡ b.available) × (b'.pending ≡ b.pending) × (b'.locked + n ≡ b.locked)

after_of-Shifts :
    (op : WriteOp) (amount : ℕ) (b b' : Balances)
    → after_of op amount b ≡ ok b'
    → Shifts op amount b b'
unfolding after_of credit_after credit_pending_after release_pending_after debit_after lock_after
    release_after finalize_after
after_of-Shifts credit_org amount b b' h = ground arith
after_of-Shifts credit_pending amount b b' h = ground arith
after_of-Shifts release_pending amount b b' h = ground arith
after_of-Shifts debit_org amount b b' h = ground arith
after_of-Shifts lock_funds amount b b' h = ground arith
after_of-Shifts release_funds amount b b' h = ground arith
after_of-Shifts finalize_debit amount b b' h = ground arith

-- What a new movement has done to the tables.
pub record Applied (op : WriteOp) (p : LedgerWriteParams) (db : Db) (r : Posted) (db' : Db)
    : Type 0 where
  pub new : r.duplicate ≡ false
  pub sums :
      total db'.wallets + outflow op r.movement.amount
      ≡ total db.wallets + inflow op r.movement.amount
  pub others :
      (j : WalletId)
      → j ≢ wallet_id p.org_id p.environment p.asset
      → (wallet_at j db'.wallets).balances ≡ (wallet_at j db.wallets).balances
  pub own :
      Shifts op r.movement.amount
        (wallet_at (wallet_id p.org_id p.environment p.asset) db.wallets).balances
        r.movement.after
  pub shown :
      (wallet_at (wallet_id p.org_id p.environment p.asset) db'.wallets).balances ≡ r.movement.after
  pub parsed : parse_amount p.amount ≡ ok r.movement.amount
  pub appended : db'.movements ≡ r.movement ∷ db.movements
  pub named : r.movement.wallet_id ≡ wallet_id p.org_id p.environment p.asset
  pub keyed : r.movement.idempotency_key ≡ trim p.idempotency_key

Posts-Applied :
    (op : WriteOp) (p : LedgerWriteParams) (amount : ℕ) (db : Db) (r : Posted) (db' : Db)
    → parse_amount p.amount ≡ ok amount
    → Posts op p amount (trim p.idempotency_key) db r db'
    → Applied op p db r db'
Posts-Applied op p amount db r db' parsed done =
    let id = wallet_id p.org_id p.environment p.asset in
    let key = trim p.idempotency_key in
    let movement : r.movement ≡ movement_of op p amount key (row op p amount key db) done.after =
      ap (λ (x : Posted). x.movement) done.answer in
    record {
      new = rw done.answer refl;
      sums = rw movement (Posts-total op p amount key db r db' done);
      others = λ j other. rw (done.left, wallet_at-set_balances) (ground (arith, same_id_iff j id));
      own =
          rw movement
            (after_of-Shifts op amount (wallet_at id db.wallets).balances done.after done.computed);
      shown =
          rw (movement, Posts-shown op p amount key db r db' done id)
            (ground (arith, same_id_iff id id));
      parsed = rw movement parsed;
      appended = rw (movement, done.left) refl;
      named = rw movement (wallet_at-id id db.wallets);
      keyed = rw movement refl;
    }

-- What a call that began at `db` has done to it, by how it ended.
abbrev pub Moves : WriteOp → LedgerWriteParams → Db → Result Posted × Db → Type 0
Moves op p db (err e, db') = db' ≡ db
Moves op p db (ok r, db') = ((r.duplicate ≡ true) × (db' ≡ db)) ⊎ Applied op p db r db'

-- A call that fails or finds its movement there already changes nothing. Any other changes the columns of
-- its own wallet by the amount that was passed, each in the direction of the operation, and so the sum of
-- all balances by what the operation brings in or pays out; it changes no other wallet; and it puts one
-- movement before the others, which names the wallet, the trimmed key, the amount and the new balances.
pub ledger_write-Moves :
    (op : WriteOp) (p : LedgerWriteParams) (seen : List LedgerMovement) (db : Db)
    → Moves op p db (ledger_write op p seen db)
ledger_write-Moves op p seen db = elim (ledger_write-Outcome op p seen db) [
  | inl (e, same) ↦ rw same refl
  | inr (inl (m, same, there)) ↦ rw same (inl (refl, refl))
  | inr (inr (amount, r, db', same, parsed, unseen, done)) ↦
      rw same (inr (Posts-Applied op p amount db r db' parsed done))
]

-- The invariant of the tables survives every call, however it ends.
pub ledger_write-IsValid :
    (op : WriteOp) (p : LedgerWriteParams) (seen : List LedgerMovement) (db : Db)
    → IsValid db
    → IsValid (ledger_write op p seen db).1
ledger_write-IsValid op p seen db v = elim (ledger_write-Outcome op p seen db) [
  | inl (e, same) ↦ rw same v
  | inr (inl (m, same, there)) ↦ rw same v
  | inr (inr (amount, r, db', same, parsed, unseen, done)) ↦
      rw (same, done.left) (Posts-IsValid op p amount (trim p.idempotency_key) db r db' done v)
]

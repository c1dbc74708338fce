-- ===== src/Ledger/Write/Race.antt =====
-- Two calls with one key whose first look-ups both ran before either committed.
use dayfi_backend.Base.{
  ℕ, ◌≡◌, arith, List, some, none, inl, inr, false, true, ◌≢◌, trim, is_empty, String,
}
use dayfi_backend.Ledger.Types.{
  LedgerWriteParams, LedgerMovement, Balances, WalletAccount, ok, err, is_active, parse_amount,
  unique_violation,
}
use dayfi_backend.Ledger.Store.{Db, find_movement, insert_movement}
use dayfi_backend.Ledger.Write.{
  WriteOp, Posted, replayed, after_of, movement_of, write_body, recover, ledger_write,
}
use dayfi_backend.Ledger.Store.Rows.{find_wallet-set_balances, find_movement-head, same_id_iff}
use dayfi_backend.Ledger.Store.Ensure.{ensured, wallet_at, find_wallet-ensured}
use dayfi_backend.Ledger.Write.Posting.{target, row, posted_db, post_at, post_movement-at}
use dayfi_backend.Ledger.Write.Idempotency.{ledger_write_inputs}
use dayfi_backend.Ledger.Write.Outcome.{ledger_write-Outcome}

-- A rival whose row is open and whose funds suffice reaches the insert, and the unique key stops it.
post_at_rival :
    (op : WriteOp) (p : LedgerWriteParams) (amount : ℕ) (key : String) (w : WalletAccount) (db : Db)
    (b : Balances) (m : LedgerMovement)
    → is_active w.status ≡ true
    → after_of op amount w.balances ≡ ok b
    → amount ≢ 0
    → find_movement key db.movements ≡ some m
    → post_at op p amount key w db ≡ err unique_violation
unfolding post_at insert_movement
post_at_rival op p amount key w db b m on enough positive taken = ground arith

ledger_write_rival :
    (op : WriteOp) (p : LedgerWriteParams) (seen : List LedgerMovement) (amount : ℕ) (db : Db)
    (b : Balances) (m : LedgerMovement)
    → parse_amount p.amount ≡ ok amount
    → is_empty (trim p.idempotency_key) ≡ false
    → find_movement (trim p.idempotency_key) seen ≡ none
    → is_active (row op p amount (trim p.idempotency_key) db).status ≡ true
    → after_of op amount (row op p amount (trim p.idempotency_key) db).balances ≡ ok b
    → amount ≢ 0
    → find_movement (trim p.idempotency_key) db.movements ≡ some m
    → ledger_write op p seen db ≡ (ok (replayed m), db)
unfolding ledger_write write_body recover
ledger_write_rival op p seen amount db b m parsed keyed unseen on enough positive taken =
    let key = trim p.idempotency_key in
    let id = target op p amount key db in
    ground (
      arith,
      post_movement-at op p amount key db,
      post_at_rival op p amount key (row op p amount key db)
          (record db { wallets = ensured id db.wallets }) b m on enough positive taken,
    )

-- The row that an operation has written, as the next operation finds it.
wallet_at-posted :
    (op : WriteOp) (p : LedgerWriteParams) (amount : ℕ) (key : String) (b : Balances)
    (m : LedgerMovement) (db : Db)
    → wallet_at (target op p amount key db) (posted_db (target op p amount key db) b m db).wallets
      ≡ record (row op p amount key db) { balances = b }
unfolding wallet_at
wallet_at-posted op p amount key b m db =
    let id = target op p amount key db in
    ground (
      arith,
      find_wallet-set_balances id id b (ensured id db.wallets) (wallet_at id db.wallets)
          (find_wallet-ensured id db.wallets),
      same_id_iff id id,
    )

-- Both calls with the key looked it up before either had committed, and the first has now posted its
-- movement. If the row would still allow the operation, the second call is stopped by the unique key,
-- and answers with the first one's movement as a duplicate; nothing is applied twice.
pub ledger_write_race :
    (op : WriteOp) (p : LedgerWriteParams) (seen late : List LedgerMovement) (db : Db) (r : Posted)
    (db' : Db) (b : Balances)
    → ledger_write op p seen db ≡ (ok r, db')
    → r.duplicate ≡ false
    → find_movement (trim p.idempotency_key) late ≡ none
    → after_of op r.movement.amount r.movement.after ≡ ok b
    → ledger_write op p late db' ≡ (ok (replayed r.movement), db')
ledger_write_race op p seen late db r db' b first new unseen enough =
    elim (ledger_write-Outcome op p seen db) [
      | inl (e, same) ↦ absurd (ground arith)
      | inr (inl (n, same, there)) ↦ absurd (ground arith)
      | inr (inr (amount, r', db'', same, parsed, fresh, done)) ↦
          let key = trim p.idempotency_key in
          let m = movement_of op p amount key (row op p amount key db) done.after in
          let left : db' ≡ posted_db (target op p amount key db) done.after m db =
            ground (arith, done.left) in
          let answer : r.movement ≡ m = ground (arith, done.answer) in
          let at_row = wallet_at-posted op p amount key done.after m db in
          rw (left, answer)
            (ledger_write_rival op p late amount
              (posted_db (target op p amount key db) done.after m db) b m parsed
              (ledger_write_inputs op p seen db r db' first).1 unseen (rw at_row done.is_open)
              (rw at_row (rw answer at enough)) done.positive (find_movement-head m db.movements))
    ]

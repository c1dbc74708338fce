-- ===== src/Ledger/Write/Idempotency.antt =====
-- One movement for each idempotency key, also when two transactions race.
use dayfi_backend.Base.{
  ℕ, ◌≡◌, arith, List, some, none, inl, inr, ◌⊎◌, false, is_empty, trim, eq_refl,
}
use dayfi_backend.Ledger.Types.{
  LedgerWriteParams, LedgerMovement, LedgerError, ok, err, parse_amount,
}
use dayfi_backend.Ledger.Store.{Db, find_movement}
use dayfi_backend.Ledger.Write.{WriteOp, Posted, replayed, write_body, recover, ledger_write}
use dayfi_backend.Ledger.Write.Posting.{Result-cases}
use dayfi_backend.Ledger.Write.Outcome.{ledger_write-Outcome}

pub ledger_write_used :
    (op : WriteOp) (p : LedgerWriteParams) (seen : List LedgerMovement) (db : Db)
    (m : LedgerMovement)
    → find_movement (trim p.idempotency_key) db.movements ≡ some m
    → (find_movement (trim p.idempotency_key) seen ≡ none)
      ⊎ (find_movement (trim p.idempotency_key) seen ≡ some m)
    → ((e : LedgerError) × (ledger_write op p seen db ≡ (err e, db)))
      ⊎ (ledger_write op p seen db ≡ (ok (replayed m), db))
ledger_write_used op p seen db m there past = elim (ledger_write-Outcome op p seen db) [
  | inl (e, same) ↦ inl (e, same)
  | inr (inl (n, same, inl found)) ↦ inr (ground arith)
  | inr (inl (n, same, inr found)) ↦ inr (ground arith)
  | inr (inr (amount, r, db', same, parsed, unseen, done)) ↦ absurd (ground (arith, done.unused))
]

module _ (op : WriteOp) (p : LedgerWriteParams) (seen : List LedgerMovement) (db : Db) where
  -- A call that answers with a movement has read its amount and its key.
  pub ledger_write_inputs :
      (r : Posted) (db' : Db)
      → ledger_write op p seen db ≡ (ok r, db')
      → ((amount : ℕ) × (parse_amount p.amount ≡ ok amount))
        × (is_empty (trim p.idempotency_key) ≡ false)
  unfolding ledger_write
  ledger_write_inputs r db' h = elim (Result-cases (parse_amount p.amount)) [
    | inl (e, failed) ↦ absurd (ground arith)
    | inr (amount, parsed) ↦ ((amount, parsed), ground arith)
  ]

  ledger_write_seen :
      (amount : ℕ) (m : LedgerMovement)
      → parse_amount p.amount ≡ ok amount
      → is_empty (trim p.idempotency_key) ≡ false
      → find_movement (trim p.idempotency_key) seen ≡ some m
      → ledger_write op p seen db ≡ (ok (replayed m), db)
  unfolding ledger_write write_body recover
  ledger_write_seen amount m parsed keyed found = ground arith

-- A key that a committed movement `m` holds is never applied again. A call with the key and a readable
-- amount answers with `m`, flagged as a duplicate, and changes nothing; or else its look-up ran too early
-- to see `m`, and it ends in an error that changes nothing.
pub ledger_write_once :
    (op : WriteOp) (p : LedgerWriteParams) (seen : List LedgerMovement) (db : Db) (amount : ℕ)
    (m : LedgerMovement)
    → parse_amount p.amount ≡ ok amount
    → is_empty (trim p.idempotency_key) ≡ false
    → find_movement (trim p.idempotency_key) db.movements ≡ some m
    → (find_movement (trim p.idempotency_key) seen ≡ none)
      ⊎ (find_movement (trim p.idempotency_key) seen ≡ some m)
    → (ledger_write op p seen db ≡ (ok (replayed m), db))
      ⊎ ((find_movement (trim p.idempotency_key) seen ≡ none)
          × ((e : LedgerError) × (ledger_write op p seen db ≡ (err e, db))))
ledger_write_once op p seen db amount m parsed keyed there (inr found) =
    inl (ledger_write_seen op p seen db amount m parsed keyed found)
ledger_write_once op p seen db amount m parsed keyed there (inl early) =
    elim (ledger_write_used op p seen db m there (inl early)) [
      | inl failed ↦ inr (early, failed)
      | inr same ↦ inl same
    ]

-- The movement that a successful call answers with is in the tables that it leaves.
pub find_movement_after :
    (op : WriteOp) (p : LedgerWriteParams) (db : Db) (r : Posted) (db' : Db)
    → ledger_write op p db.movements db ≡ (ok r, db')
    → find_movement (trim p.idempotency_key) db'.movements ≡ some r.movement
unfolding find_movement
find_movement_after op p db r db' h = elim (ledger_write-Outcome op p db.movements db) [
  | inl (e, same) ↦ absurd (ground arith)
  | inr (inl (n, same, inl found)) ↦ ground arith
  | inr (inl (n, same, inr found)) ↦ ground arith
  | inr (inr (amount, r', db'', same, parsed, unseen, done)) ↦
      ground (arith, done.answer, done.left, eq_refl (trim p.idempotency_key))
]

-- A retry of a call that succeeded is answered with the same movement, flagged as a duplicate, and
-- changes nothing.
ledger_write_retry :
    (op : WriteOp) (p : LedgerWriteParams) (db : Db) (r : Posted) (db' : Db)
    → ledger_write op p db.movements db ≡ (ok r, db')
    → ledger_write op p db'.movements db' ≡ (ok (replayed r.movement), db')
ledger_write_retry op p db r db' h =
    let inputs = ledger_write_inputs op p db.movements db r db' h in
    ledger_write_seen op p db'.movements db' inputs.0.0 r.movement inputs.0.1 inputs.1
      (find_movement_after op p db r db' h)

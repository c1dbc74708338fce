-- ===== src/Ledger/Write/Outcome.antt =====
-- How a call of the seven operations can end.
use dayfi_backend.Base.{
  ℕ, ◌≡◌, refl, arith, none, some, List, ◌⊎◌, inl, inr, trim, is_empty, Bool-cases, Option-cases,
}
use dayfi_backend.Ledger.Types.{
  LedgerError, LedgerMovement, LedgerWriteParams, Result, ok, err, idempotency_required,
  unique_violation, parse_amount,
}
use dayfi_backend.Ledger.Store.{Db, tx, find_movement}
use dayfi_backend.Ledger.Write.{
  WriteOp, Posted, replayed, post_movement, write_body, recover, ledger_write,
}
use dayfi_backend.Ledger.Write.Posting.{Posts, post_movement-Posts, Result-cases}

-- How a call can end: with an error or a movement that is there already, and the tables as they were,
-- or with a new movement.
abbrev pub Outcome :
    WriteOp → LedgerWriteParams → List LedgerMovement → Db → Result Posted × Db → Type 0
Outcome op p seen db out =
    ((e : LedgerError) × (out ≡ (err e, db)))
    ⊎ ((m : LedgerMovement) × (out ≡ (ok (replayed m), db))
        × ((find_movement (trim p.idempotency_key) seen ≡ some m)
            ⊎ (find_movement (trim p.idempotency_key) db.movements ≡ some m)))
    ⊎ ((amount : ℕ) × (r : Posted) × (db' : Db) × (out ≡ (ok r, db'))
        × (parse_amount p.amount ≡ ok amount)
        × (find_movement (trim p.idempotency_key) seen ≡ none)
        × Posts op p amount (trim p.idempotency_key) db r db')

module _ (op : WriteOp) (p : LedgerWriteParams) (seen : List LedgerMovement) (db : Db) where
  recover-Outcome :
      (e : LedgerError) → Outcome op p seen db (recover (trim p.idempotency_key) (err e, db))
  unfolding recover
  recover-Outcome unique_violation =
      elim (Option-cases (find_movement (trim p.idempotency_key) db.movements)) [
        | inl nothing ↦ inl (unique_violation, ground arith)
        | inr (m, found) ↦ inr (inl (m, ground arith, inr found))
      ]
  recover-Outcome e = inl (e, refl)

  write_body-Outcome :
      (amount : ℕ)
      → parse_amount p.amount ≡ ok amount
      → Outcome op p seen db (
          recover
            (trim p.idempotency_key)
            (tx (write_body op p amount (trim p.idempotency_key) seen) db))
  unfolding write_body recover
  write_body-Outcome amount parsed =
      let key = trim p.idempotency_key in
      elim (Option-cases (find_movement key seen)) [
        | inl fresh ↦ elim (Result-cases (post_movement op p amount key db)) [
          | inl (e, failed) ↦
              let same : recover key (tx (write_body op p amount key seen) db)
                  ≡ recover key (err e, db) =
                ground arith in
              rw same (recover-Outcome e)
          | inr ((r, db'), done) ↦ inr (
              inr (
                amount,
                r,
                db',
                ground arith,
                parsed,
                fresh,
                post_movement-Posts op p amount key db r db' done,
              ))
        ]
        | inr (m, found) ↦ inr (inl (m, ground arith, inl found))
      ]

  pub ledger_write-Outcome : Outcome op p seen db (ledger_write op p seen db)
  unfolding ledger_write
  ledger_write-Outcome = elim (Result-cases (parse_amount p.amount)) [
    | inl (e, failed) ↦ inl (e, ground arith)
    | inr (amount, parsed) ↦ elim (Bool-cases (is_empty (trim p.idempotency_key))) [
      | inl empty ↦ inl (idempotency_required, ground arith)
      | inr keyed ↦
          let key = trim p.idempotency_key in
          let same : ledger_write op p seen db
              ≡ recover key (tx (write_body op p amount key seen) db) =
            ground arith in
          rw same (write_body-Outcome amount parsed)
    ]
  ]

-- ===== src/Ledger/Write/Reserve.antt =====
-- Reservations: locked funds come back by a release, or leave by a finalizing debit.
use dayfi_backend.Base.{◌+◌, ◌≡◌, ◌≢◌, arith, List, inl, inr, false, trim, if◌then◌else◌}
use dayfi_backend.Ledger.Types.{WalletId, Balances, LedgerWriteParams, LedgerMovement, ok, same_id}
use dayfi_backend.Ledger.Store.{Db, wallet_id}
use dayfi_backend.Ledger.Write.{
  WriteOp, lock_funds, release_funds, finalize_debit, Posted, after_of, lock_after, release_after,
  finalize_after, ledger_write, lock_org_funds, release_org_funds, finalize_locked_debit,
}
use dayfi_backend.Ledger.Store.Rows.{same_id_iff}
use dayfi_backend.Ledger.Write.Outcome.{ledger_write-Outcome}
use dayfi_backend.Ledger.Write.Conservation.{Posts-shown}
use dayfi_backend.Ledger.Transfer.Effect.{shown}

abbrev pub wallet_of : LedgerWriteParams → WalletId
wallet_of p = wallet_id p.org_id p.environment p.asset

-- What a new movement has done to what the wallets show.
pub ledger_write-shown :
    (op : WriteOp) (p : LedgerWriteParams) (seen : List LedgerMovement) (db : Db) (r : Posted)
    (db' : Db)
    → ledger_write op p seen db ≡ (ok r, db')
    → r.duplicate ≡ false
    → (b : Balances) × (after_of op r.movement.amount (shown (wallet_of p) db) ≡ ok b)
      × ((j : WalletId) → shown j db' ≡ (if same_id j (wallet_of p) then b else shown j db))
ledger_write-shown op p seen db r db' h new = elim (ledger_write-Outcome op p seen db) [
  | inl (e, same) ↦ absurd (ground arith)
  | inr (inl (n, same, there)) ↦ absurd (ground arith)
  | inr (inr (amount, r', db'', same, parsed, fresh, done)) ↦ (
    done.after,
    ground (arith, done.computed, done.answer),
    λ j. ground (arith, Posts-shown op p amount (trim p.idempotency_key) db r' db'' done j),
  )
]

-- A lock and then a release of the same amount on the same wallet leave every balance of every wallet
-- as it was before the lock.
lock_release_restores :
    (p q : LedgerWriteParams) (seen late : List LedgerMovement) (db : Db) (r : Posted) (db' : Db)
    (s : Posted) (db'' : Db)
    → lock_org_funds p seen db ≡ (ok r, db')
    → r.duplicate ≡ false
    → release_org_funds q late db' ≡ (ok s, db'')
    → s.duplicate ≡ false
    → wallet_of q ≡ wallet_of p
    → s.movement.amount ≡ r.movement.amount
    → (j : WalletId) → shown j db'' ≡ shown j db
unfolding lock_org_funds release_org_funds after_of lock_after release_after
lock_release_restores p q seen late db r db' s db'' locked new released fresh one_wallet one_amount
      j =
    let first = ledger_write-shown lock_funds p seen db r db' locked new in
    let second = ledger_write-shown release_funds q late db' s db'' released fresh in
    ground (
      arith,
      first.1,
      first.2 (wallet_of p),
      first.2 j,
      second.1,
      second.2 j,
      same_id_iff (wallet_of p) (wallet_of p),
      same_id_iff j (wallet_of p),
    )

-- A lock and then a finalizing debit of the same amount on the same wallet take exactly that amount
-- from what was available; what was pending or locked before, and every other wallet, stays.
lock_finalize_spends :
    (p q : LedgerWriteParams) (seen late : List LedgerMovement) (db : Db) (r : Posted) (db' : Db)
    (s : Posted) (db'' : Db)
    → lock_org_funds p seen db ≡ (ok r, db')
    → r.duplicate ≡ false
    → finalize_locked_debit q late db' ≡ (ok s, db'')
    → s.duplicate ≡ false
    → wallet_of q ≡ wallet_of p
    → s.movement.amount ≡ r.movement.amount
    → ((shown (wallet_of p) db'').available + r.movement.amount
        ≡ (shown (wallet_of p) db).available)
      × ((shown (wallet_of p) db'').pending ≡ (shown (wallet_of p) db).pending)
      × ((shown (wallet_of p) db'').locked ≡ (shown (wallet_of p) db).locked)
      × ((j : WalletId) → j ≢ wallet_of p → shown j db'' ≡ shown j db)
unfolding lock_org_funds finalize_locked_debit after_of lock_after finalize_after
lock_finalize_spends p q seen late db r db' s db'' locked new finalized fresh one_wallet
      one_amount =
    let first = ledger_write-shown lock_funds p seen db r db' locked new in
    let second = ledger_write-shown finalize_debit q late db' s db'' finalized fresh in
    let here = same_id_iff (wallet_of p) (wallet_of p) in
    (
      ground (arith, first.1, first.2 (wallet_of p), second.1, second.2 (wallet_of p), here),
      ground (arith, first.1, first.2 (wallet_of p), second.1, second.2 (wallet_of p), here),
      ground (arith, first.1, first.2 (wallet_of p), second.1, second.2 (wallet_of p), here),
      λ j other. ground (arith, first.2 j, second.2 j, same_id_iff j (wallet_of p)),
    )

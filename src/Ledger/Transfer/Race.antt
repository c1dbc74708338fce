-- ===== src/Ledger/Transfer/Race.antt =====
-- A transfer whose keys are used already, by a call that the first look-up has or has not seen.
use dayfi_backend.Base.{◌≡◌, arith, String, List, ◌∷◌, some, none, inl, inr, ◌⊎◌, trim, true}
use dayfi_backend.Ledger.Types.{LedgerMovement, LedgerError, ok, err}
use dayfi_backend.Ledger.Store.{Db, find_movement}
use dayfi_backend.Ledger.Transfer.{TransferParams, transfer_available_balance}
use dayfi_backend.Ledger.Transfer.Outcome.{sender_id, recipient_id, transfer-Outcome}
use dayfi_backend.Ledger.Transfer.Legs.{debit_leg}
use dayfi_backend.Ledger.Store.Ensure.{wallet_at}

find_movement-cons :
    (key : String) (d : LedgerMovement) (ms : List LedgerMovement)
    → find_movement key (d ∷ ms) ≡ none
    → find_movement key ms ≡ none
unfolding find_movement
find_movement-cons key d ms free = ground arith

-- One of the two keys has been used.
abbrev pub KeyUsed : TransferParams → LedgerMovement → List LedgerMovement → Type 0
KeyUsed p m ms =
    (find_movement (trim p.debit_idempotency_key) ms ≡ some m)
    ⊎ (find_movement (trim p.credit_idempotency_key) ms ≡ some m)

used_free :
    (p : TransferParams) (m : LedgerMovement) (ms : List LedgerMovement)
    → KeyUsed p m ms
    → find_movement (trim p.debit_idempotency_key) ms ≡ none
    → ¬ (find_movement (trim p.credit_idempotency_key) ms ≡ none)
used_free p m ms (inl used) debit_free credit_free = ground arith
used_free p m ms (inr used) debit_free credit_free = ground arith

-- A transfer of which one key stands in the tables moves nothing, whatever its first look-up saw: it
-- ends in an error, or answers with both legs as its look-up saw them.
pub transfer_once :
    (p : TransferParams) (seen : List LedgerMovement) (db : Db) (m : LedgerMovement)
    → KeyUsed p m db.movements
    → ((e : LedgerError) × (transfer_available_balance p seen db ≡ (err e, db)))
      ⊎ ((d : LedgerMovement) × (c : LedgerMovement) × (transfer_available_balance p seen db
            ≡ (ok (record { debit_movement = d; credit_movement = c; duplicate = true }), db))
          × (find_movement (trim p.debit_idempotency_key) seen ≡ some d)
          × (find_movement (trim p.credit_idempotency_key) seen ≡ some c))
transfer_once p seen db m used = elim (transfer-Outcome p seen db) [
  | inl (e, same) ↦ inl (e, same)
  | inr (inl (d, c, same, d_found, c_found)) ↦ inr (d, c, same, d_found, c_found)
  | inr (inr (amount, r, db', same, apart, parsed, done)) ↦ absurd (
      used_free p m db.movements used done.debit_unused (
        find_movement-cons (trim p.credit_idempotency_key)
          (debit_leg p amount (trim p.debit_idempotency_key) (trim p.credit_idempotency_key)
            (wallet_at (sender_id p) db.wallets) (wallet_at (recipient_id p) db.wallets))
          db.movements done.credit_unused))
]

-- Of two transfers with one debit key whose look-ups both ran before either committed, the second ends
-- in an error: it is not answered with the movements of the first.
pub transfer_race :
    (p : TransferParams) (seen : List LedgerMovement) (db : Db) (m : LedgerMovement)
    → KeyUsed p m db.movements
    → find_movement (trim p.debit_idempotency_key) seen ≡ none
    → (e : LedgerError) × (transfer_available_balance p seen db ≡ (err e, db))
transfer_race p seen db m used unseen = elim (transfer_once p seen db m used) [
  | inl failed ↦ failed
  | inr (d, c, same, d_found, c_found) ↦ absurd (ground arith)
]

-- ===== src/Lifecycle/Payout/History.antt =====
-- Every history of calls on payouts, among any other writes of the ledger.
use text.Mathlib.Text.{starts_with}
use dayfi_backend.Base.{◌≡◌, String, false, Option, some, none, List, [], ◌∷◌, ◌⊎◌, trim, arith}
use dayfi_backend.Ledger.Types.{LedgerWriteParams, JsNumber}
use dayfi_backend.Ledger.Store.{find_movement}
use dayfi_backend.Ledger.Write.{WriteOp}
use dayfi_backend.Lifecycle.Types.{TxRow, Books, find_tx}
use dayfi_backend.Lifecycle.Payout.{
  payout_key, lock_row, finalize_row, release_row, lock_payout_funds, finalize_payout_debit,
  release_payout_lock,
}
use dayfi_backend.Lifecycle.Payout.Exclusive.{
  Synced, lock_row-Synced, finalize_row-Synced, release_row-Synced, loaded-Synced, write_other,
  write_other-Synced,
}
use dayfi_backend.Lifecycle.Payout.Phases.{
  Advances, stays, phase_of, lock_row-Advances, finalize_row-Advances, release_row-Advances,
  loaded-Advances,
}

-- A call on a payout, with what it is given, or a write of the ledger under another key.
pub data Event : Type 0 where
  lock : String → String → Option JsNumber → Option JsNumber → Event
  finalize : String → Option String → Event
  release : String → Option String → Option String → Event
  write :
      (op : WriteOp) (p : LedgerWriteParams)
      → starts_with (trim p.idempotency_key) "payout:" ≡ false
      → Event

-- The tables after the event, whatever it answers.
unfoldable pub after : Event → Books → Books
after (lock org id given conversion) b = (lock_payout_funds org id given conversion b).1
after (finalize id org) b = (finalize_payout_debit id org b).1
after (release id org status) b = (release_payout_lock id org status b).1
after (write op p other) b = write_other op p b

-- The tables after the events, the last event first.
unfoldable pub books : List Event → Books → Books
books [] b = b
books (e ∷ es) b = after e (books es b)

pub after-Synced : (e : Event) (b : Books) → Synced b → Synced (after e b)
unfolding after lock_payout_funds finalize_payout_debit release_payout_lock
after-Synced (lock org id given conversion) b synced =
    loaded-Synced id (some org) (λ row. lock_row row given conversion) b
      (λ row found. lock_row-Synced row given conversion b found synced) synced
after-Synced (finalize id org) b synced =
    loaded-Synced id org finalize_row b (λ row found. finalize_row-Synced row b found synced) synced
after-Synced (release id org status) b synced =
    loaded-Synced id org (λ row. release_row row status) b
      (λ row found. release_row-Synced row status b found synced) synced
after-Synced (write op p other) b synced = write_other-Synced op p b other synced

books-Synced : (es : List Event) (b : Books) → Synced b → Synced (books es b)
unfolding books
books-Synced [] b synced = synced
books-Synced (e ∷ es) b synced = after-Synced e (books es b) (books-Synced es b synced)

-- Start from tables whose flags agree with the movements. After any history of calls on payouts and of
-- other writes, one after the other, no payout has both been spent and been given back: at least one of
-- the two movements is missing.
payout_exclusive :
    (es : List Event) (b : Books) (id : String) (row : TxRow)
    → Synced b
    → find_tx id none (books es b).txs ≡ some row
    → (find_movement (payout_key row.id ":finalize") (books es b).ledger.movements ≡ none)
      ⊎ (find_movement (payout_key row.id ":release") (books es b).ledger.movements ≡ none)
payout_exclusive es b id row synced found =
    let (spent, returned, apart) = books-Synced es b synced id row found in ground arith

write_other-stays :
    (op : WriteOp) (p : LedgerWriteParams) (b : Books) (j : String)
    → Advances (phase_of j b) (phase_of j (write_other op p b))
unfolding write_other phase_of
write_other-stays op p b j = stays (phase_of j b)

-- Each call implements the machine of phases, on the flags of the payout that it is about and of every
-- other one: a payout with neither flag stays so or gets the flag of the debit or that of the release,
-- one with a flag stays as it is, and none gets both.
pub after-Advances :
    (e : Event) (b : Books) (j : String) → Advances (phase_of j b) (phase_of j (after e b))
unfolding after lock_payout_funds finalize_payout_debit release_payout_lock
after-Advances (lock org id given conversion) b j =
    loaded-Advances id (some org) (λ row. lock_row row given conversion) b j
      (λ row found. lock_row-Advances row given conversion b j found)
after-Advances (finalize id org) b j =
    loaded-Advances id org finalize_row b j (λ row found. finalize_row-Advances row b j found)
after-Advances (release id org status) b j =
    loaded-Advances id org (λ row. release_row row status) b j
      (λ row found. release_row-Advances row status b j found)
after-Advances (write op p other) b j = write_other-stays op p b j

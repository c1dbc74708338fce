-- ===== src/Lifecycle/Payout/Exclusive.antt =====
-- The money of a payout is spent or given back, and never both.
use Prim.Native.String
use text.Mathlib.Text.{starts_with}
use text.Mathlib.TextPositions.{starts_with-append}
use dayfi_backend.Base.{
  ◌≡◌, ◌≢◌, refl, sym, arith, String, true, false, Option, some, none, List, ◌⊎◌, inl, inr, trim,
  trim_end, str_eq, eq_iff, if◌then◌else◌, Bool-cases, Option-cases,
}
use dayfi_backend.Ledger.Types.{LedgerWriteParams, LedgerMovement, JsNumber}
use dayfi_backend.Ledger.Store.{find_movement}
use dayfi_backend.Ledger.Write.{
  WriteOp, ledger_write, lock_funds, release_funds, finalize_debit, lock_org_funds,
  release_org_funds, finalize_locked_debit,
}
use dayfi_backend.Lifecycle.Types.{TxRow, Books, Call, ◌>>=◌, find_tx, load_tx}
use dayfi_backend.Lifecycle.Keys.{
  trim-payout_key, payout_key-id, finalize_release_keys, lock_finalize_keys, lock_release_keys,
}
use dayfi_backend.Lifecycle.Payout.{payout_key, payout_write, finalize_row, release_row, lock_row}
use dayfi_backend.Lifecycle.Payout.Effect.{
  find_movement-other, find_tx-update, find_tx-id, Touches, posting, posting-Touches, finalized,
  released, locked, finalize_row-cases, release_row-cases, lock_row-cases, load_tx-cases,
}

-- The flags of a row agree with the movements, and at most one of the two flags is set.
abbrev pub RowSynced : List LedgerMovement → TxRow → Type 0
RowSynced ms r =
    ((find_movement (payout_key r.id ":finalize") ms ≡ none) ⊎ (r.funds_finalized ≡ true))
    × ((find_movement (payout_key r.id ":release") ms ≡ none) ⊎ (r.funds_released ≡ true))
    × ((r.funds_finalized ≡ false) ⊎ (r.funds_released ≡ false))

abbrev pub Synced : Books → Type 0
Synced b = (j : String) (r : TxRow) → find_tx j none b.txs ≡ some r → RowSynced b.ledger.movements r

-- A write leaves the movements of all other keys.
abbrev Beside : String → List LedgerMovement → List LedgerMovement → Type 0
Beside key ms ms' = (k : String) → k ≢ key → find_movement k ms' ≡ find_movement k ms

pub RowSynced-other :
    (key : String) (ms ms' : List LedgerMovement) (r : TxRow)
    → Beside key ms ms'
    → payout_key r.id ":finalize" ≢ key
    → payout_key r.id ":release" ≢ key
    → RowSynced ms r
    → RowSynced ms' r
RowSynced-other key ms ms' r beside one two synced =
    let first = beside (payout_key r.id ":finalize") one in
    let second = beside (payout_key r.id ":release") two in rw (first, second) synced

-- What a call changes keeps the flags in step, if its patch does so for its own row.
module _ (row : TxRow) (patch : TxRow → TxRow) (key : String)
    (kept : (r : TxRow) → (patch r).id ≡ r.id)
    (apart : (j : String)
      → j ≢ row.id
      → (payout_key j ":finalize" ≢ key) × (payout_key j ":release" ≢ key))
    (b b' : Books) (synced : Synced b)
    (own : (r : TxRow)
      → find_tx row.id none b.txs ≡ some r
      → (ms : List LedgerMovement) → Beside key b.ledger.movements ms
      → RowSynced ms (patch r)) where
  patched-RowSynced :
      (j : String) (r0 r : TxRow)
      → find_tx j none b.txs ≡ some r0
      → some (if str_eq row.id r0.id then patch r0 else r0) ≡ some r
      → Beside key b.ledger.movements b'.ledger.movements
      → RowSynced b'.ledger.movements r
  patched-RowSynced j r0 r found same beside = elim (Bool-cases (str_eq row.id r0.id)) [
    | inl hit ↦
        let id : row.id ≡ j =
          ground (arith, eq_iff row.id r0.id, find_tx-id j none b.txs r0 found) in
        let it : r ≡ patch r0 = ground arith in
        rw it (own r0 (rw id found) b'.ledger.movements beside)
    | inr miss ↦
        let other : r0.id ≢ row.id = λ e. ground (arith, eq_iff row.id r0.id) in
        let it : r ≡ r0 = ground arith in
        rw it (
          RowSynced-other key b.ledger.movements b'.ledger.movements r0 beside (apart r0.id other).0
            (apart r0.id other).1 (synced j r0 found))
  ]

  Touches-Synced : Touches row.id patch key b b' → trim key ≡ key → Synced b'
  Touches-Synced (inl (txs, movements)) trimmed j r found =
      rw movements (synced j r (rw txs at found))
  Touches-Synced (inr (txs, movements)) trimmed j r found =
      let beside : Beside key b.ledger.movements b'.ledger.movements =
        λ k other. movements k (rw trimmed other) in
      let again = find_tx-update row.id j patch b.txs kept in
      elim (Option-cases (find_tx j none b.txs)) [
        | inl missing ↦ absurd (ground arith)
        | inr (r0, there) ↦ patched-RowSynced j r0 r there (ground arith) beside
      ]

own_row :
    (row r : TxRow) (rs : List TxRow)
    → find_tx row.id none rs ≡ some row
    → find_tx row.id none rs ≡ some r
    → r ≡ row
own_row row r rs one two = ground arith

pub finalize_row-Synced :
    (row : TxRow) (b : Books)
    → find_tx row.id none b.txs ≡ some row
    → Synced b
    → Synced (finalize_row row b).1
unfolding finalize_locked_debit trim_end
finalize_row-Synced row b found synced = elim (finalize_row-cases row b) [
  | inl same ↦ rw same synced
  | inr (amount, in_time, same) ↦
      let key = payout_key row.id ":finalize" in
      let p = payout_write row amount ":finalize" "payout_settle" in
      rw same (
        Touches-Synced row finalized key (λ r. refl)
          (λ j other. (
            λ e. other (payout_key-id j row.id ":finalize" e),
            λ e. finalize_release_keys row.id j (sym e),
          ))
          b (posting finalize_locked_debit p row finalized b).1 synced
          (λ r again ms beside.
            let it = own_row row r b.txs found again in
            let (f, g, h) = synced row.id row found in
            let rest =
              beside (payout_key row.id ":release")
                (λ e. finalize_release_keys row.id row.id (sym e)) in
            rw it (inr refl, ground arith, inr in_time))
          (posting-Touches finalize_debit p row finalized b)
          (trim-payout_key row.id ":finalize" refl refl))
]

pub release_row-Synced :
    (row : TxRow) (status : Option String) (b : Books)
    → find_tx row.id none b.txs ≡ some row
    → Synced b
    → Synced (release_row row status b).1
unfolding release_org_funds trim_end
release_row-Synced row status b found synced = elim (release_row-cases row status b) [
  | inl same ↦ rw same synced
  | inr (amount, in_time, same) ↦
      let key = payout_key row.id ":release" in
      let p = payout_write row amount ":release" "funds_release" in
      rw same (
        Touches-Synced row (released status) key (λ r. refl)
          (λ j other.
            (finalize_release_keys j row.id, λ e. other (payout_key-id j row.id ":release" e)))
          b (posting release_org_funds p row (released status) b).1 synced
          (λ r again ms beside.
            let it = own_row row r b.txs found again in
            let (f, g, h) = synced row.id row found in
            let rest =
              beside (payout_key row.id ":finalize") (finalize_release_keys row.id row.id) in
            rw it (ground arith, inr refl, inl in_time))
          (posting-Touches release_funds p row (released status) b)
          (trim-payout_key row.id ":release" refl refl))
]

pub lock_row-Synced :
    (row : TxRow) (given conversion : Option JsNumber) (b : Books)
    → find_tx row.id none b.txs ≡ some row
    → Synced b
    → Synced (lock_row row given conversion b).1
unfolding lock_org_funds trim_end
lock_row-Synced row given conversion b found synced = elim (lock_row-cases row given conversion b) [
  | inl same ↦ rw same synced
  | inr (amount, same) ↦
      let key = payout_key row.id ":lock" in
      let p = payout_write row amount ":lock" "funds_lock" in
      rw same (
        Touches-Synced row (locked row amount) key (λ r. refl)
          (λ j other.
            (λ e. lock_finalize_keys row.id j (sym e), λ e. lock_release_keys row.id j (sym e)))
          b (posting lock_org_funds p row (locked row amount) b).1 synced
          (λ r again ms beside.
            RowSynced-other key b.ledger.movements ms (locked row amount r) beside
              (λ e. lock_finalize_keys row.id r.id (sym e))
              (λ e. lock_release_keys row.id r.id (sym e)) (synced row.id r again))
          (posting-Touches lock_funds p row (locked row amount) b)
          (trim-payout_key row.id ":lock" refl refl))
]

-- A call on the row that is loaded by an id.
pub loaded-Synced :
    {A : Type 0} (id : String) (org : Option String) (next : TxRow → Call A) (b : Books)
    → ((row : TxRow) → find_tx row.id none b.txs ≡ some row → Synced (next row b).1)
    → Synced b
    → Synced (◌>>=◌ (load_tx id org) next b).1
loaded-Synced id org next b keeps synced = elim (load_tx-cases id org next b) [
  | inl same ↦ rw same synced
  | inr (row, found, same) ↦
      let (named, there) = find_tx-id id org b.txs row found in rw same (keeps row (ground arith))
]

-- A write of the ledger under a key that is no payout's.
unfoldable pub write_other : WriteOp → LedgerWriteParams → Books → Books
write_other op p b = record b { ledger = (ledger_write op p b.ledger.movements b.ledger).1 }

payout_key-other :
    (id suffix key : String) → starts_with key "payout:" ≡ false → payout_key id suffix ≢ key
unfolding payout_key
payout_key-other id suffix key other same =
    let begins = starts_with-append "payout:" (String.◌++◌ id suffix) in
    let begins' : starts_with key "payout:" ≡ true = rw same at begins in absurd (ground arith)

pub write_other-Synced :
    (op : WriteOp) (p : LedgerWriteParams) (b : Books)
    → starts_with (trim p.idempotency_key) "payout:" ≡ false
    → Synced b
    → Synced (write_other op p b)
unfolding write_other
write_other-Synced op p b other synced j r found =
    RowSynced-other (trim p.idempotency_key) b.ledger.movements
      (ledger_write op p b.ledger.movements b.ledger).1.movements r
      (λ k apart. find_movement-other op p b.ledger.movements b.ledger k apart)
      (payout_key-other r.id ":finalize" (trim p.idempotency_key) other)
      (payout_key-other r.id ":release" (trim p.idempotency_key) other) (synced j r found)

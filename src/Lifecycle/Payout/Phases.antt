-- ===== src/Lifecycle/Payout/Phases.antt =====
-- The promise of a payout to its organization, as a machine of phases that the calls implement.
use dayfi_backend.Base.{
  ◌≡◌, refl, ap, arith, String, false, Option, some, none, inl, inr, str_eq, eq_iff, if◌then◌else◌,
  Bool-cases, Option-cases,
}
use dayfi_backend.Ledger.Types.{JsNumber}
use dayfi_backend.Ledger.Write.{
  lock_funds, release_funds, finalize_debit, lock_org_funds, release_org_funds,
  finalize_locked_debit,
}
use dayfi_backend.Lifecycle.Types.{TxRow, Books, Call, ◌>>=◌, find_tx, load_tx}
use dayfi_backend.Lifecycle.Payout.{payout_write, finalize_row, release_row, lock_row}
use dayfi_backend.Lifecycle.Payout.Effect.{
  find_tx-update, find_tx-id, Touches, posting, posting-Touches, finalized, released, locked,
  finalize_row-cases, release_row-cases, lock_row-cases, load_tx-cases,
}

-- Neither flag is set, or the one, or the other, or wrongly both.
pub data Phase : Type 0 where
  unsettled spent returned torn : Phase

-- An unsettled payout becomes spent or returned, and then stays as it is. Nothing leads to `torn`.
pub data Advances : Option Phase → Option Phase → Type 0 where
  stays : (p : Option Phase) → Advances p p
  settles_spent : Advances (some unsettled) (some spent)
  settles_returned : Advances (some unsettled) (some returned)

abbrev pub phase : TxRow → Phase
phase r =
    if r.funds_finalized
    then (if r.funds_released then torn else spent)
    else if r.funds_released
    then returned
    else unsettled

-- The phase of the payout with the id.
unfoldable pub phase_of : String → Books → Option Phase
phase_of j b = elim (find_tx j none b.txs) [ some r ↦ some (phase r) | none ↦ none ]

phase_of-found :
    (j : String) (b : Books) (o : Option TxRow)
    → find_tx j none b.txs ≡ o
    → phase_of j b ≡ (elim o [ some r ↦ some (phase r) | none ↦ none ])
unfolding phase_of
phase_of-found j b o found =
    ap
      (λ (x : Option TxRow). elim x as (λ y. Option Phase) [
        | some r ↦ some (phase r)
        | none ↦ none
      ])
      found

-- Every row goes on, if the row that is patched does.
Touches-Advances :
    (row : TxRow) (patch : TxRow → TxRow) (key : String) (b b' : Books)
    → ((r : TxRow) → (patch r).id ≡ r.id)
    → find_tx row.id none b.txs ≡ some row
    → Advances (some (phase row)) (some (phase (patch row)))
    → Touches row.id patch key b b'
    → (j : String) → Advances (phase_of j b) (phase_of j b')
Touches-Advances row patch key b b' kept found goes (inl (txs, movements)) j =
    rw
      (
        phase_of-found j b' (find_tx j none b.txs) (rw txs refl),
        phase_of-found j b (find_tx j none b.txs) refl,
      )
      (stays _)
Touches-Advances row patch key b b' kept found goes (inr (txs, movements)) j =
    let again = find_tx-update row.id j patch b.txs kept in
    elim (Option-cases (find_tx j none b.txs)) [
      | inl missing ↦
          rw (phase_of-found j b' none (ground arith), phase_of-found j b none missing) (stays none)
      | inr (r0, there) ↦ elim (Bool-cases (str_eq row.id r0.id)) [
        | inl hit ↦
            let id : row.id ≡ j =
              ground (arith, eq_iff row.id r0.id, find_tx-id j none b.txs r0 there) in
            let it : r0 ≡ row = ground arith in
            let was : phase_of j b ≡ some (phase row) =
              phase_of-found j b (some row) (ground arith) in
            let is_now : phase_of j b' ≡ some (phase (patch row)) =
              phase_of-found j b' (some (patch row)) (ground arith) in
            rw (was, is_now) goes
        | inr miss ↦
            rw (phase_of-found j b' (some r0) (ground arith), phase_of-found j b (some r0) there)
              (stays (some (phase r0)))
      ]
    ]

finalized-phase :
    (row : TxRow)
    → row.funds_released ≡ false
    → Advances (some (phase row)) (some (phase (finalized row)))
finalized-phase row in_time = elim (Bool-cases row.funds_finalized) [
  | inl before ↦ rw (before, in_time) (stays (some spent))
  | inr new ↦ rw (new, in_time) settles_spent
]

released-phase :
    (row : TxRow) (status : Option String)
    → row.funds_finalized ≡ false
    → Advances (some (phase row)) (some (phase (released status row)))
released-phase row status in_time = elim (Bool-cases row.funds_released) [
  | inl before ↦ rw (in_time, before) (stays (some returned))
  | inr new ↦ rw (in_time, new) settles_returned
]

pub finalize_row-Advances :
    (row : TxRow) (b : Books) (j : String)
    → find_tx row.id none b.txs ≡ some row
    → Advances (phase_of j b) (phase_of j (finalize_row row b).1)
unfolding finalize_locked_debit
finalize_row-Advances row b j found = elim (finalize_row-cases row b) [
  | inl same ↦ rw same (stays (phase_of j b))
  | inr (amount, in_time, same) ↦
      let p = payout_write row amount ":finalize" "payout_settle" in
      rw same (
        Touches-Advances row finalized p.idempotency_key b
          (posting finalize_locked_debit p row finalized b).1 (λ r. refl) found
          (finalized-phase row in_time) (posting-Touches finalize_debit p row finalized b) j)
]

pub release_row-Advances :
    (row : TxRow) (status : Option String) (b : Books) (j : String)
    → find_tx row.id none b.txs ≡ some row
    → Advances (phase_of j b) (phase_of j (release_row row status b).1)
unfolding release_org_funds
release_row-Advances row status b j found = elim (release_row-cases row status b) [
  | inl same ↦ rw same (stays (phase_of j b))
  | inr (amount, in_time, same) ↦
      let p = payout_write row amount ":release" "funds_release" in
      rw same (
        Touches-Advances row (released status) p.idempotency_key b
          (posting release_org_funds p row (released status) b).1 (λ r. refl) found
          (released-phase row status in_time)
          (posting-Touches release_funds p row (released status) b) j)
]

pub lock_row-Advances :
    (row : TxRow) (given conversion : Option JsNumber) (b : Books) (j : String)
    → find_tx row.id none b.txs ≡ some row
    → Advances (phase_of j b) (phase_of j (lock_row row given conversion b).1)
unfolding lock_org_funds
lock_row-Advances row given conversion b j found = elim (lock_row-cases row given conversion b) [
  | inl same ↦ rw same (stays (phase_of j b))
  | inr (amount, same) ↦
      let p = payout_write row amount ":lock" "funds_lock" in
      rw same (
        Touches-Advances row (locked row amount) p.idempotency_key b
          (posting lock_org_funds p row (locked row amount) b).1 (λ r. refl) found
          (stays (some (phase row))) (posting-Touches lock_funds p row (locked row amount) b) j)
]

-- A call on the row that is loaded by an id.
pub loaded-Advances :
    {A : Type 0} (id : String) (org : Option String) (next : TxRow → Call A) (b : Books)
    (j : String)
    → ((row : TxRow)
        → find_tx row.id none b.txs ≡ some row
        → Advances (phase_of j b) (phase_of j (next row b).1))
    → Advances (phase_of j b) (phase_of j (◌>>=◌ (load_tx id org) next b).1)
loaded-Advances id org next b j goes = elim (load_tx-cases id org next b) [
  | inl same ↦ rw same (stays (phase_of j b))
  | inr (row, found, same) ↦
      let (named, there) = find_tx-id id org b.txs row found in rw same (goes row (ground arith))
]

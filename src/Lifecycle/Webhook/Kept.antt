-- ===== src/Lifecycle/Webhook/Kept.antt =====
-- What is done with a collection leaves the flags of payouts in step with the movements.
use Prim.Native.Char.{code}
use Prim.Native.String
use Prim.Native.String.{char_at}
use text.Mathlib.TextLemmas.{cons-append}
use dayfi_backend.Base.{
  ℕ, ◌≡◌, ◌≢◌, ◌∙◌, refl, sym, ap, arith, String, Bool, true, false, ◌||◌, not, Option, some, none,
  ◌⊎◌, inl, inr, trim, trim_end, is_empty, str_eq, if◌then◌else◌, Bool-cases, Option-cases,
}
use dayfi_backend.Ledger.Types.{LedgerMovement, LedgerWriteParams, JsNumber}
use dayfi_backend.Ledger.Types
use dayfi_backend.Ledger.Store.{Db}
use dayfi_backend.Ledger.Write.{
  WriteOp, Posted, ledger_write, release_pending, release_pending_to_available,
}
use dayfi_backend.Ledger.Write.Posting.{Result-cases}
use dayfi_backend.Lifecycle.Types.{
  TxRow, Books, LifecycleError, round7, positive, as_env, Result, ok, err, find_tx, update_txs,
  load_tx, read_balance,
}
use dayfi_backend.Lifecycle.Keys.{trim_start-append, trim_end-append}
use dayfi_backend.Lifecycle.Payout.{payout_key}
use dayfi_backend.Lifecycle.Payout.Effect.{find_movement-other, find_tx-update, read_balance-kept}
use dayfi_backend.Lifecycle.Payout.Exclusive.{Synced, RowSynced-other}
use dayfi_backend.Lifecycle.Funding.{
  FundingMode, Network, SettlementStatus, find_settlement, Settlement, Submission, Desk,
  collection_key, release_params, confirm_collection_funding, settle_submission, submit_funding,
  ensure_settlement, await_treasury, pay_collection, fund_collection_stellar_wallet, fund_amount,
  is_off, fresh_settlement, pending, pending_treasury,
}
use dayfi_backend.Lifecycle.Funding.Steps.{fund_amount-any, sent}
use dayfi_backend.Lifecycle.Collection.{
  credit_suffix, credit_params, credited_status, credit_row, fund_credited, finish_credited,
  settle_row, settle_collection_credit,
}
use dayfi_backend.Lifecycle.Collection.Replay.{
  credit_row-cases, recorded, written, credit_op, credited-recorded,
}

-- The code of the first character.
abbrev head : String → ℕ
head String.[] = 0
head (String.◌∷◌ c s) = code c

collection_key-payout :
    (i suffix j suffix' : String) → payout_key i suffix ≢ collection_key j suffix'
unfolding payout_key collection_key
collection_key-payout i suffix j suffix' same =
    let p : head (String.◌++◌ "payout:" (String.◌++◌ i suffix)) ≡ 112 =
      rw (cons-append (char_at "p" 0) "ayout:" (String.◌++◌ i suffix)) refl in
    let c : head (String.◌++◌ "collection:" (String.◌++◌ j suffix')) ≡ 99 =
      rw (cons-append (char_at "c" 0) "ollection:" (String.◌++◌ j suffix')) refl in
    let both : 112 ≡ 99 = sym p ∙ ap (λ (s : String). head s) same ∙ c in absurd (ground arith)

trim-collection_key :
    (id suffix : String)
    → trim_end suffix ≡ suffix
    → is_empty suffix ≡ false
    → trim (collection_key id suffix) ≡ collection_key id suffix
unfolding trim collection_key
trim-collection_key id suffix h k =
    let (inner, full) = trim_end-append id suffix h k in
    let (whole, there) = trim_end-append "collection:" (String.◌++◌ id suffix) inner full in
    rw whole (trim_start-append (char_at "c" 0) "ollection:" (String.◌++◌ id suffix) refl)

-- A patch that keeps whose payout a row is, and its flags.
abbrev pub KeepsFlags : (TxRow → TxRow) → Type 0
KeepsFlags patch =
    (r : TxRow)
    → ((patch r).id ≡ r.id)
      × ((patch r).funds_finalized ≡ r.funds_finalized)
      × ((patch r).funds_released ≡ r.funds_released)

pub update_txs-Synced :
    (id : String) (patch : TxRow → TxRow) (b : Books)
    → KeepsFlags patch
    → Synced b
    → Synced (record b { txs = update_txs id patch b.txs })
update_txs-Synced id patch b kept synced j r found =
    let again = find_tx-update id j patch b.txs (λ s. (kept s).0) in
    elim (Option-cases (find_tx j none b.txs)) [
      | inl missing ↦ absurd (ground arith)
      | inr (r0, there) ↦
          let (same, finalized, released) = kept r0 in
          let is : r ≡ (if str_eq id r0.id then patch r0 else r0) = ground arith in
          elim (Bool-cases (str_eq id r0.id)) [
            | inl hit ↦
                let it : r ≡ patch r0 = ground arith in
                rw it (rw (same, finalized, released) (synced j r0 there))
            | inr miss ↦ let it : r ≡ r0 = ground arith in rw it (synced j r0 there)
          ]
    ]

-- A write of the ledger under the key of a collection.
pub write-Synced :
    (op : WriteOp) (p : LedgerWriteParams) (id suffix : String) (b : Books)
    → p.idempotency_key ≡ collection_key id suffix
    → trim_end suffix ≡ suffix
    → is_empty suffix ≡ false
    → Synced b
    → Synced (record b { ledger = (ledger_write op p b.ledger.movements b.ledger).1 })
write-Synced op p id suffix b keyed h k synced j r found =
    let trimmed : trim p.idempotency_key ≡ collection_key id suffix =
      rw keyed (trim-collection_key id suffix h k) in
    RowSynced-other (collection_key id suffix) b.ledger.movements
      (ledger_write op p b.ledger.movements b.ledger).1.movements r
      (λ key apart. find_movement-other op p b.ledger.movements b.ledger key (rw trimmed apart))
      (collection_key-payout r.id ":finalize" id suffix)
      (collection_key-payout r.id ":release" id suffix) (synced j r found)

recorded-Synced :
    (funded : Bool) (row : TxRow) (amount : JsNumber) (out : Types.Result Posted × Db) (b : Books)
    → Synced (record b { ledger = out.1 })
    → Synced (recorded funded row amount out b).1
recorded-Synced funded row amount (Types.err e, db) b synced = synced
recorded-Synced funded row amount (Types.ok posted, db) b synced =
    update_txs-Synced row.id
      (λ r. record r { status = credited_status funded row; usdc_amount = some amount })
      (record b { ledger = db }) (λ r. (refl, refl, refl)) synced

suffix-trimmed :
    (funded : Bool)
    → (trim_end (credit_suffix funded) ≡ credit_suffix funded)
      × (is_empty (credit_suffix funded) ≡ false)
unfolding trim_end
suffix-trimmed true = (refl, refl)
suffix-trimmed false = (refl, refl)

credit_row-Synced :
    (funded : Bool) (row : TxRow) (conversion : Option JsNumber) (b : Books)
    → Synced b
    → Synced (credit_row funded row conversion b).1
credit_row-Synced funded row conversion b synced = elim (credit_row-cases funded row conversion b) [
  | inl (e, same) ↦ rw same synced
  | inr (amount, same) ↦
      let (trimmed, full) = suffix-trimmed funded in
      rw (same, credited-recorded funded row amount b)
        (recorded-Synced funded row amount (written funded row amount b) b (
          write-Synced (credit_op funded) (credit_params funded row amount) row.id
            (credit_suffix funded) b refl trimmed full synced))
]

pub same-Synced :
    (b b' : Books)
    → b'.txs ≡ b.txs
    → b'.ledger.movements ≡ b.ledger.movements
    → Synced b
    → Synced b'
same-Synced b b' txs movements synced j r found = rw movements (synced j r (rw txs at found))

confirm-Synced :
    (s : Settlement) (hash : String) (d : Desk)
    → Synced d.books
    → Synced (confirm_collection_funding s hash d).1.books
unfolding confirm_collection_funding release_pending_to_available trim_end
confirm-Synced s hash d synced =
    let written =
      write-Synced release_pending (release_params s) s.collection_id ":available" d.books refl refl
        refl synced in
    let out =
      ledger_write release_pending (release_params s) d.books.ledger.movements d.books.ledger in
    elim (Result-cases out.0) [
      | inl (e, failed) ↦
          rw (confirm_collection_funding, release_pending_to_available, failed) written
      | inr (posted, done) ↦
          rw (confirm_collection_funding, release_pending_to_available, done)
            (update_txs-Synced s.collection_id (λ r. record r { status = "settled" })
              (record d.books { ledger = out.1 }) (λ r. (refl, refl, refl)) written)
    ]

settle_submission-Synced :
    (s : Settlement) (sub : Submission) (verified : Bool) (d : Desk)
    → Synced d.books
    → Synced (settle_submission s sub verified d).1.books
unfolding settle_submission
settle_submission-Synced s sub verified d synced = elim (Bool-cases (sub.is_final || verified)) [
  | inl final ↦
      rw (settle_submission, final)
        (confirm-Synced s sub.transaction_hash (sent s sub.transaction_hash d) synced)
  | inr unsure ↦ rw (settle_submission, unsure) synced
]

submit_funding-Synced :
    (s : Settlement) (net : Network) (d : Desk)
    → Synced d.books
    → Synced (submit_funding s net d).1.books
unfolding submit_funding
submit_funding-Synced s net d synced = elim (Option-cases net.payment) [
  | inl none_sent ↦ rw (submit_funding, none_sent) synced
  | inr (sub, sent_it) ↦
      rw (submit_funding, sent_it) (settle_submission-Synced s sub net.verified d synced)
]

ensured_books :
    (status : SettlementStatus) (fresh : Settlement) (d : Desk)
    → (ensure_settlement status fresh d).1.books ≡ d.books
unfolding ensure_settlement
ensured_books status fresh d =
    elim (Option-cases (find_settlement fresh.org_id fresh.idempotency_key d.settlements)) [
      | inl missing ↦ rw (missing, ensure_settlement) refl
      | inr (s, found) ↦ rw (found, ensure_settlement) refl
    ]

fund_amount-Synced :
    (mode : FundingMode) (fresh : Settlement) (net : Network) (d : Desk)
    → Synced d.books
    → Synced (fund_amount mode fresh net d).1.books
unfolding await_treasury pay_collection
fund_amount-Synced mode fresh net d synced =
    fund_amount-any (λ d'. Synced d'.books) fresh net d synced
      (rw (ensured_books pending_treasury fresh d) synced)
      (submit_funding-Synced (ensure_settlement pending fresh d).0 net
        (ensure_settlement pending fresh d).1 (rw (ensured_books pending fresh d) synced))
      mode

fund_collection-Synced :
    (mode : FundingMode) (net : Network) (org env id : String) (usdc : JsNumber) (d : Desk)
    → Synced d.books
    → Synced (fund_collection_stellar_wallet mode net org env id usdc d).1.books
unfolding fund_collection_stellar_wallet
fund_collection-Synced mode net org env id usdc d synced = elim (Bool-cases (is_off mode)) [
  | inl unused ↦ rw (fund_collection_stellar_wallet, unused) synced
  | inr used ↦ elim (Option-cases (positive (round7 usdc))) [
    | inl invalid ↦ rw (fund_collection_stellar_wallet, used, invalid) synced
    | inr (n, valid) ↦
        rw (fund_collection_stellar_wallet, used, valid)
          (fund_amount-Synced mode (fresh_settlement org env id n) net d synced)
  ]
]

fund_credited-Synced :
    (mode : FundingMode) (net : Network) (row : TxRow) (amount : JsNumber) (d : Desk)
    → Synced d.books
    → Synced (fund_credited mode net row amount d).1.books
unfolding fund_credited
fund_credited-Synced mode net row amount d synced = elim (Bool-cases (is_off mode)) [
  | inl unused ↦ rw (fund_credited, unused) synced
  | inr used ↦
      rw (fund_credited, used)
        (fund_collection-Synced mode net row.org_id (as_env row.environment) row.id amount d synced)
]

pub shape :
    {A : Type 0} (r : Result A) → ((e : LifecycleError) × (r ≡ err e)) ⊎ ((a : A) × (r ≡ ok a))
shape (err e) = inl (e, refl)
shape (ok a) = inr (a, refl)

finish_credited-Synced :
    (mode : FundingMode) (net : Network) (row : TxRow) (out : Result (Posted × JsNumber)) (d : Desk)
    → Synced d.books
    → Synced (finish_credited mode net row out d).1.books
unfolding finish_credited
finish_credited-Synced mode net row (err e) d synced = synced
finish_credited-Synced mode net row (ok (credit, amount)) d synced =
    let funded = (fund_credited mode net row amount d).1 in
    let (txs, movements) = read_balance-kept row funded.books in
    let kept =
      same-Synced funded.books (read_balance row funded.books).1 txs movements
        (fund_credited-Synced mode net row amount d synced) in
    elim (shape (read_balance row funded.books).0) [
      | inl (e, failed) ↦ rw (finish_credited, failed) kept
      | inr (b, read) ↦ rw (finish_credited, read) kept
    ]

-- Settling a collection leaves the flags of payouts in step.
pub settle_collection_credit-Synced :
    (mode : FundingMode) (net : Network) (org id : String) (conversion : Option JsNumber) (d : Desk)
    → Synced d.books
    → Synced (settle_collection_credit mode net org id conversion d).1.books
unfolding settle_collection_credit settle_row
settle_collection_credit-Synced mode net org id conversion d synced =
    elim (shape (load_tx id (some org) d.books).0) [
      | inl (e, failed) ↦ rw (settle_collection_credit, failed) synced
      | inr (row, found) ↦
          rw (settle_collection_credit, found, settle_row)
            (finish_credited-Synced mode net row
              (credit_row (not (is_off mode)) row conversion d.books).0
              (record d { books = (credit_row (not (is_off mode)) row conversion d.books).1 })
              (credit_row-Synced (not (is_off mode)) row conversion d.books synced))
    ]

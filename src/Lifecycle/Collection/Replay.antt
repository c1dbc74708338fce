-- ===== src/Lifecycle/Collection/Replay.antt =====
-- A collection is credited once, however often its settlement is reported.
use dayfi_backend.Base.{
  ◌∙◌, ◌≡◌, refl, sym, ap, arith, String, Bool, true, false, Option, some, ◌⊎◌, inl, inr, trim,
  Bool-cases, Option-cases,
}
use dayfi_backend.Ledger.Types.{LedgerMovement, LedgerError, JsNumber}
use dayfi_backend.Ledger.Types
use dayfi_backend.Ledger.Store.{Db, find_movement}
use dayfi_backend.Ledger.Write.{
  WriteOp, credit_org, credit_pending, Posted, ledger_write, credit_org_wallet,
  credit_org_wallet_pending,
}
use dayfi_backend.Ledger.Write.Idempotency.{ledger_write_used, find_movement_after}
use dayfi_backend.Lifecycle.Types.{
  TxRow, Books, LifecycleError, wrong_direction, ledger_error, not_found, Result, ok, err, Call,
  ◌>>=◌, pure, from_ledger, write_ledger, find_tx, update_txs, load_tx, patch_tx, read_balance,
  meta_usdc, resolve_usdc_amount,
}
use dayfi_backend.Lifecycle.Payout.{or_amount}
use dayfi_backend.Lifecycle.Payout.Effect.{
  find_tx-id, bind-Reads, usdc-Reads, read_balance-kept, Result-shape,
}
use dayfi_backend.Lifecycle.Funding.{FundingMode, off, Network, Desk, collection_key}
use dayfi_backend.Lifecycle.Collection.{
  is_collection, credit_suffix, credit_params, credit_write, credited_status, Credited, credit_row,
  fund_credited, finish_credited, settle_row, settle_collection_credit,
}

-- The write, and the update of the row.
abbrev pub record_credit : Bool → TxRow → JsNumber → Posted → Call (Posted × JsNumber)
record_credit funded row amount credit = do
  patched ←
      patch_tx row.id
        (λ r. record r { status = credited_status funded row; usdc_amount = some amount })
  pure (credit, amount)

abbrev pub credited : Bool → TxRow → JsNumber → Call (Posted × JsNumber)
credited funded row amount = do
  credit ← write_ledger (credit_write funded) (credit_params funded row amount)
  record_credit funded row amount credit

pub credit_row-cases :
    (funded : Bool) (row : TxRow) (conversion : Option JsNumber) (b : Books)
    → ((e : LifecycleError) × (credit_row funded row conversion b ≡ (err e, b)))
      ⊎ ((amount : JsNumber) × (credit_row funded row conversion b ≡ credited funded row amount b))
unfolding credit_row
credit_row-cases funded row conversion b = elim (Bool-cases (is_collection row.direction)) [
  | inr other ↦ inl (wrong_direction, rw other refl)
  | inl is_one ↦ rw is_one (
      bind-Reads
        (or_amount (meta_usdc row) (resolve_usdc_amount row.amount row.currency conversion))
        (credited funded row) (usdc-Reads row conversion) b)
]

abbrev pub credit_op : Bool → WriteOp
credit_op true = credit_pending
credit_op false = credit_org

credit_write-op : (funded : Bool) → credit_write funded ≡ ledger_write (credit_op funded)
unfolding credit_org_wallet credit_org_wallet_pending
credit_write-op true = refl
credit_write-op false = refl

-- The key that the credit of a row is looked up by.
abbrev pub credit_key : Bool → String → String
credit_key funded id = trim (collection_key id (credit_suffix funded))

-- What the settlement makes of the answer of the write.
abbrev pub recorded :
    Bool → TxRow → JsNumber → Types.Result Posted × Db → Books → Result (Posted × JsNumber) × Books
recorded funded row amount (Types.ok posted, db) b = (
  ok (posted, amount),
  record {
    ledger = db;
    txs =
        update_txs row.id
          (λ r. record r { status = credited_status funded row; usdc_amount = some amount }) b.txs;
  },
)
recorded funded row amount (Types.err e, db) b = (err (ledger_error e), record b { ledger = db })

same_call :
    {A B : Type 0} (c c' : Call A) (f : A → Call B) (b : Books)
    → c b ≡ c' b
    → ◌>>=◌ c f b ≡ ◌>>=◌ c' f b
same_call {A} {B} c c' f b same =
    ap
      (λ (x : Result A × Books). elim x.0 as (λ y. Result B × Books) [
        | ok a ↦ f a x.1
        | err e ↦ (err e, x.1)
      ])
      same

bind-recorded :
    (funded : Bool) (row : TxRow) (amount : JsNumber) (b : Books) (out : Types.Result Posted × Db)
    → ◌>>=◌ (λ books. from_ledger books out) (record_credit funded row amount) b
      ≡ recorded funded row amount out b
unfolding patch_tx
bind-recorded funded row amount b (Types.ok posted, db) = refl
bind-recorded funded row amount b (Types.err e, db) = refl

abbrev pub written : Bool → TxRow → JsNumber → Books → Types.Result Posted × Db
written funded row amount b =
    ledger_write (credit_op funded) (credit_params funded row amount) b.ledger.movements b.ledger

pub credited-recorded :
    (funded : Bool) (row : TxRow) (amount : JsNumber) (b : Books)
    → credited funded row amount b ≡ recorded funded row amount (written funded row amount b) b
unfolding write_ledger
credited-recorded funded row amount b =
    same_call (write_ledger (credit_write funded) (credit_params funded row amount))
      (λ books. from_ledger books (written funded row amount b)) (record_credit funded row amount) b
      (rw (credit_write-op funded) refl)
    ∙ bind-recorded funded row amount b (written funded row amount b)

recorded_ledger :
    (funded : Bool) (row : TxRow) (amount : JsNumber) (out : Types.Result Posted × Db) (b : Books)
    → (recorded funded row amount out b).1.ledger ≡ out.1
recorded_ledger funded row amount (Types.ok posted, db) b = refl
recorded_ledger funded row amount (Types.err e, db) b = refl

recorded_ok :
    (funded : Bool) (row : TxRow) (amount : JsNumber) (out : Types.Result Posted × Db)
    (b b' : Books) (c : Posted × JsNumber)
    → recorded funded row amount out b ≡ (ok c, b')
    → out ≡ (Types.ok c.0, b'.ledger)
recorded_ok funded row amount (Types.ok posted, db) b b' c h = ground arith
recorded_ok funded row amount (Types.err e, db) b b' c h = absurd (ground arith)

credited_ok :
    (funded : Bool) (row : TxRow) (amount : JsNumber) (b b' : Books) (c : Posted × JsNumber)
    → credited funded row amount b ≡ (ok c, b')
    → find_movement (credit_key funded row.id) b'.ledger.movements ≡ some c.0.movement
credited_ok funded row amount b b' c h =
    let out = written funded row amount b in
    let same = sym (credited-recorded funded row amount b) ∙ h in
    find_movement_after (credit_op funded) (credit_params funded row amount) b.ledger c.0 b'.ledger
      (recorded_ok funded row amount out b b' c same)

credited_once :
    (funded : Bool) (row : TxRow) (amount : JsNumber) (b : Books) (m : LedgerMovement)
    → find_movement (credit_key funded row.id) b.ledger.movements ≡ some m
    → (credited funded row amount b).1.ledger ≡ b.ledger
credited_once funded row amount b m there =
    let kept : (written funded row amount b).1 ≡ b.ledger =
      elim (ledger_write_used (credit_op funded) (credit_params funded row amount)
        b.ledger.movements b.ledger m there (inr there)) [
          | inl (e, same) ↦ rw same refl
          | inr same ↦ rw same refl
        ] in
    rw (credited-recorded funded row amount b)
      (recorded_ledger funded row amount (written funded row amount b) b ∙ kept)

-- A credit that is there already leaves the ledger as it is.
pub credit_row_once :
    (funded : Bool) (row : TxRow) (conversion : Option JsNumber) (b : Books) (m : LedgerMovement)
    → find_movement (credit_key funded row.id) b.ledger.movements ≡ some m
    → (credit_row funded row conversion b).1.ledger ≡ b.ledger
credit_row_once funded row conversion b m there = elim (credit_row-cases funded row conversion b) [
  | inl (e, same) ↦ rw same refl
  | inr (amount, same) ↦ rw same (credited_once funded row amount b m there)
]

pub credit_row_ok :
    (funded : Bool) (row : TxRow) (conversion : Option JsNumber) (b b' : Books)
    (c : Posted × JsNumber)
    → credit_row funded row conversion b ≡ (ok c, b')
    → find_movement (credit_key funded row.id) b'.ledger.movements ≡ some c.0.movement
credit_row_ok funded row conversion b b' c h = elim (credit_row-cases funded row conversion b) [
  | inl (e, same) ↦ absurd (ground arith)
  | inr (amount, same) ↦ credited_ok funded row amount b b' c (sym same ∙ h)
]

-- Without a payment on chain, what follows the credit leaves the movements.
finish-off :
    (net : Network) (row : TxRow) (out : Result (Posted × JsNumber)) (d : Desk)
    → (finish_credited off net row out d).1.books.ledger.movements ≡ d.books.ledger.movements
unfolding finish_credited fund_credited
finish-off net row (err e) d = refl
finish-off net row (ok (credit, amount)) d =
    let (txs, movements) = read_balance-kept row d.books in
    elim (Result-shape (read_balance row d.books)) [
      | inl (a, b, same) ↦ rw (finish_credited, fund_credited, same) (ground arith)
      | inr (e, b, same) ↦ rw (finish_credited, fund_credited, same) (ground arith)
    ]

finish-ok :
    (net : Network) (row : TxRow) (out : Result (Posted × JsNumber)) (d d' : Desk) (c : Credited)
    → finish_credited off net row out d ≡ (ok c, d')
    → (amount : JsNumber) × (out ≡ ok (c.credit, amount))
unfolding finish_credited fund_credited
finish-ok net row (err e) d d' c h = absurd (ground arith)
finish-ok net row (ok (credit, amount)) d d' c h = elim (Result-shape (read_balance row d.books)) [
  | inl (a, b, same) ↦ (amount, ground arith)
  | inr (e, b, same) ↦ absurd (ground arith)
]

settle_row-credited :
    (net : Network) (row : TxRow) (conversion : Option JsNumber) (d d' : Desk) (c : Credited)
    → settle_row off net row conversion d ≡ (ok c, d')
    → find_movement (credit_key false row.id) d'.books.ledger.movements ≡ some c.credit.movement
unfolding settle_row
settle_row-credited net row conversion d d' c h =
    let out = credit_row false row conversion d.books in
    let (amount, same) = finish-ok net row out.0 (record d { books = out.1 }) d' c h in
    let there =
      credit_row_ok false row conversion d.books out.1 (c.credit, amount) (ground arith) in
    let kept = finish-off net row out.0 (record d { books = out.1 }) in
    let kept' : d'.books.ledger.movements ≡ out.1.ledger.movements = rw h at kept in rw kept' there

settle_row-once :
    (net : Network) (row : TxRow) (conversion : Option JsNumber) (d : Desk) (m : LedgerMovement)
    → find_movement (credit_key false row.id) d.books.ledger.movements ≡ some m
    → (settle_row off net row conversion d).1.books.ledger.movements ≡ d.books.ledger.movements
unfolding settle_row
settle_row-once net row conversion d m there =
    let kept = credit_row_once false row conversion d.books m there in
    let out = credit_row false row conversion d.books in
    finish-off net row out.0 (record d { books = out.1 }) ∙ ap (λ (l : Db). l.movements) kept

settle-row :
    (mode : FundingMode) (net : Network) (org id : String) (conversion : Option JsNumber) (d : Desk)
    → ((e : LifecycleError) × (settle_collection_credit mode net org id conversion d ≡ (err e, d)))
      ⊎ ((row : TxRow) × (row.id ≡ id)
          × (settle_collection_credit mode net org id conversion d
              ≡ settle_row mode net row conversion d))
unfolding settle_collection_credit load_tx
settle-row mode net org id conversion d = elim (Option-cases (find_tx id (some org) d.books.txs)) [
  | inl missing ↦ inl (not_found, rw (settle_collection_credit, missing) refl)
  | inr (row, found) ↦ inr (
    row,
    (find_tx-id id (some org) d.books.txs row found).0,
    rw (settle_collection_credit, found) refl,
  )
]

-- Without payments on chain, a collection that has been settled is not credited again: a further report,
-- whatever rate it is converted at, adds no movement to the ledger.
pub settle_replay :
    (net net' : Network) (org id : String) (conversion conversion' : Option JsNumber) (d d' : Desk)
    (c : Credited)
    → settle_collection_credit off net org id conversion d ≡ (ok c, d')
    → (settle_collection_credit off net' org id conversion' d').1.books.ledger.movements
      ≡ d'.books.ledger.movements
settle_replay net net' org id conversion conversion' d d' c h =
    elim (settle-row off net' org id conversion' d') [
      | inl (e, same) ↦ rw same refl
      | inr (row', named', same') ↦ elim (settle-row off net org id conversion d) [
        | inl (e, same) ↦ absurd (ground arith)
        | inr (row, named, same) ↦
            let there = settle_row-credited net row conversion d d' c (sym same ∙ h) in
            rw same' (
              settle_row-once net' row' conversion' d' c.credit.movement
                (rw (named ∙ sym named') at there))
      ]
    ]

-- ===== src/Lifecycle/Payout/Effect.antt =====
-- What a call on a payout leaves of the tables, whatever it answers.
use dayfi_backend.Base.{
  ◌≡◌, ◌≢◌, refl, arith, String, true, false, Option, some, none, List, [], ◌∷◌, ◌⊎◌, inl, inr,
  trim, str_eq, eq_iff, or_else, to_upper, ◌||◌, if◌then◌else◌, Bool-cases, Option-cases,
}
use dayfi_backend.Ledger.Types.{LedgerWriteParams, LedgerMovement, LedgerError, JsNumber}
use dayfi_backend.Ledger.Types
use dayfi_backend.Ledger.Store.{wallet_id}
use dayfi_backend.Ledger.Store.Ensure.{ensure_wallet_account_lem}
use dayfi_backend.Ledger.Store.{Db, tx, find_movement}
use dayfi_backend.Ledger.Write.{
  WriteOp, Posted, ledger_write, lock_org_funds, release_org_funds, finalize_locked_debit,
}
use dayfi_backend.Ledger.Write.Outcome.{ledger_write-Outcome}
use dayfi_backend.Ledger.Balance.{get_org_balance}
use dayfi_backend.Lifecycle.Types.{
  TxRow, Books, Result, ok, err, find_tx, update_txs, write_ledger, read_balance, patch_tx, load_tx,
  meta_usdc, Call, ◌>>=◌, pure, as_env, from_ledger, LifecycleError, no_rate, round7, meta_usdc,
  resolve_usdc_amount,
}
use dayfi_backend.Lifecycle.Payout.{
  payout_write, is_payout, or_amount, finalize_row, release_row, lock_row,
}

-- A write leaves every other key as it was.
pub find_movement-other :
    (op : WriteOp) (p : LedgerWriteParams) (seen : List LedgerMovement) (db : Db) (k : String)
    → k ≢ trim p.idempotency_key
    → find_movement k (ledger_write op p seen db).1.movements ≡ find_movement k db.movements
unfolding find_movement
find_movement-other op p seen db k other = elim (ledger_write-Outcome op p seen db) [
  | inl (e, same) ↦ rw same refl
  | inr (inl (m, same, there)) ↦ rw same refl
  | inr (inr (amount, r, db', same, parsed, fresh, done)) ↦
      ground (arith, done.left, eq_iff k (trim p.idempotency_key))
]

-- The row that an update finds again.
pub find_tx-update :
    (i j : String) (patch : TxRow → TxRow) (rs : List TxRow)
    → ((r : TxRow) → (patch r).id ≡ r.id)
    → find_tx j none (update_txs i patch rs) ≡ (elim (find_tx j none rs) [
      | some r ↦ some (if str_eq i r.id then patch r else r)
      | none ↦ none
    ])
unfolding find_tx update_txs
find_tx-update i j patch [] kept = refl
find_tx-update i j patch (r ∷ rs) kept = ground (arith, kept r, find_tx-update i j patch rs kept)

pub find_tx-id :
    (id : String) (org : Option String) (rs : List TxRow) (r : TxRow)
    → find_tx id org rs ≡ some r
    → (r.id ≡ id) × (find_tx id none rs ≡ some r)
unfolding find_tx
find_tx-id id org [] r h = absurd (ground arith)
find_tx-id id org (s ∷ rs) r h = ground (arith, eq_iff id s.id, find_tx-id id org rs r)

pub Result-shape :
    {A : Type 0} (out : Result A × Books)
    → ((a : A) × (b : Books) × (out ≡ (ok a, b)))
      ⊎ ((e : LifecycleError) × (b : Books) × (out ≡ (err e, b)))
Result-shape (ok a, b) = inl (a, b, refl)
Result-shape (err e, b) = inr (e, b, refl)

-- Either nothing of the rows and the movements has changed, or the row has been patched and only the
-- movement of one key may be new.
abbrev pub Touches : String → (TxRow → TxRow) → String → Books → Books → Type 0
Touches id patch key b b' =
    ((b'.txs ≡ b.txs) × (b'.ledger.movements ≡ b.ledger.movements))
    ⊎ ((b'.txs ≡ update_txs id patch b.txs)
        × ((k : String)
            → k ≢ trim key
            → find_movement k b'.ledger.movements ≡ find_movement k b.ledger.movements))

pub ledger_write-failed :
    (op : WriteOp) (p : LedgerWriteParams) (seen : List LedgerMovement) (db : Db) (e : LedgerError)
    → (ledger_write op p seen db).0 ≡ Types.err e
    → (ledger_write op p seen db).1 ≡ db
ledger_write-failed op p seen db e failed = elim (ledger_write-Outcome op p seen db) [
  | inl (e', same) ↦ ground arith
  | inr (inl (m, same, there)) ↦ absurd (ground arith)
  | inr (inr (amount, r, db', same, parsed, fresh, done)) ↦ absurd (ground arith)
]

get_org_balance-movements :
    (org env : String) (asset : Option String) (db : Db)
    → (tx (get_org_balance org env asset) db).1.movements ≡ db.movements
unfolding get_org_balance
get_org_balance-movements org env asset db =
    ground (arith, ensure_wallet_account_lem (wallet_id org env asset) db)

pub read_balance-kept :
    (row : TxRow) (b : Books)
    → ((read_balance row b).1.txs ≡ b.txs)
      × ((read_balance row b).1.ledger.movements ≡ b.ledger.movements)
unfolding read_balance
read_balance-kept row b =
    let kept = get_org_balance-movements row.org_id (as_env row.environment) none b.ledger in
    (ground arith, ground (arith, kept))

-- The update of the row, and the balance that is answered.
abbrev finish : TxRow → (TxRow → TxRow) → Posted → Call Posted
finish row patch posted = do
  patched ← patch_tx row.id patch
  balance ← read_balance row
  pure posted

-- A write of the ledger and what follows it: what the three calls end with.
abbrev pub posting :
    (LedgerWriteParams → List LedgerMovement → Db → Types.Result Posted × Db)
    → LedgerWriteParams
    → TxRow
    → (TxRow → TxRow)
    → Call Posted
posting write p row patch = do posted ← write_ledger write p; finish row patch posted

finish-Touches :
    (row : TxRow) (patch : TxRow → TxRow) (key : String) (b : Books) (db' : Db) (posted : Posted)
    → ((k : String)
        → k ≢ trim key
        → find_movement k db'.movements ≡ find_movement k b.ledger.movements)
    → Touches row.id patch key b (finish row patch posted (record b { ledger = db' })).1
unfolding patch_tx
finish-Touches row patch key b db' posted kept =
    let books : Books = record { ledger = db'; txs = update_txs row.id patch b.txs } in
    let (txs, movements) = read_balance-kept row books in
    elim (Result-shape (read_balance row books)) [
      | inl (a, b'', same) ↦ inr (ground arith, λ k other. ground (arith, kept k other))
      | inr (e, b'', same) ↦ inr (ground arith, λ k other. ground (arith, kept k other))
    ]

out-Touches :
    (row : TxRow) (patch : TxRow → TxRow) (key : String) (b : Books)
    (out : Types.Result Posted × Db)
    → ((k : String)
        → k ≢ trim key
        → find_movement k out.1.movements ≡ find_movement k b.ledger.movements)
    → ((e : LedgerError) → out.0 ≡ Types.err e → out.1 ≡ b.ledger)
    → Touches row.id patch key b (◌>>=◌ (λ books. from_ledger books out) (finish row patch) b).1
out-Touches row patch key b (Types.ok posted, db') kept failed =
    finish-Touches row patch key b db' posted kept
out-Touches row patch key b (Types.err e, db') kept failed =
    let same = failed e refl in inl (refl, ground arith)

pub posting-Touches :
    (op : WriteOp) (p : LedgerWriteParams) (row : TxRow) (patch : TxRow → TxRow) (b : Books)
    → Touches row.id patch p.idempotency_key b (posting (ledger_write op) p row patch b).1
unfolding write_ledger
posting-Touches op p row patch b =
    let db = b.ledger in
    out-Touches row patch p.idempotency_key b (ledger_write op p db.movements db)
      (λ k other. find_movement-other op p db.movements db k other)
      (λ e failed. ledger_write-failed op p db.movements db e failed)

-- The updates of the three calls.
abbrev pub finalized : TxRow → TxRow
finalized r = record r { status = "settled"; funds_finalized = true; funds_locked = false }

abbrev pub released : Option String → TxRow → TxRow
released status r = record r {
  status = or_else status "failed";
  funds_released = true;
  funds_locked = false;
}

abbrev pub locked : TxRow → JsNumber → TxRow → TxRow
locked row amount r = record r {
  status = row.status;
  usdc_amount = some amount;
  funds_locked = true;
  has_lock_id = true;
}

-- A finalizing call changes nothing, or its row had not been released and it posts.
pub finalize_row-cases :
    (row : TxRow) (b : Books)
    → ((finalize_row row b).1 ≡ b)
      ⊎ ((amount : JsNumber) × (row.funds_released ≡ false)
          × (finalize_row row b
              ≡ posting finalize_locked_debit
                  (payout_write row amount ":finalize" "payout_settle")
                  row
                  finalized
                  b))
unfolding finalize_row meta_usdc
finalize_row-cases row b = elim (Bool-cases (is_payout row.direction)) [
  | inr other ↦ inl (rw other refl)
  | inl is_one ↦ elim (Bool-cases row.funds_released) [
    | inl late ↦ inl (rw (is_one, late) refl)
    | inr in_time ↦ elim (Option-cases (meta_usdc row)) [
      | inl missing ↦ inl (rw (is_one, in_time, missing) refl)
      | inr (amount, known) ↦ inr (amount, in_time, rw (is_one, in_time, known) refl)
    ]
  ]
]

pub release_row-cases :
    (row : TxRow) (status : Option String) (b : Books)
    → ((release_row row status b).1 ≡ b)
      ⊎ ((amount : JsNumber) × (row.funds_finalized ≡ false)
          × (release_row row status b
              ≡ posting release_org_funds
                  (payout_write row amount ":release" "funds_release")
                  row
                  (released status)
                  b))
unfolding release_row meta_usdc
release_row-cases row status b = elim (Bool-cases (is_payout row.direction)) [
  | inr other ↦ inl (rw other refl)
  | inl is_one ↦ elim (Bool-cases row.funds_finalized) [
    | inl late ↦ inl (rw (is_one, late) refl)
    | inr in_time ↦ elim (Option-cases (meta_usdc row)) [
      | inl missing ↦ inl (rw (is_one, in_time, missing) refl)
      | inr (amount, known) ↦ inr (amount, in_time, rw (is_one, in_time, known) refl)
    ]
  ]
]

-- A call that only reads.
abbrev pub Reads : {A : Type 0} → Call A → Type 0
Reads {A} c =
    (b : Books) → ((a : A) × (c b ≡ (ok a, b))) ⊎ ((e : LifecycleError) × (c b ≡ (err e, b)))

resolve-Reads :
    (amount : JsNumber) (currency : String) (conversion : Option JsNumber)
    → Reads (resolve_usdc_amount amount currency conversion)
unfolding resolve_usdc_amount
resolve-Reads amount currency conversion b =
    let cur = to_upper (or_else (some currency) "USDC") in
    elim (Bool-cases (str_eq cur "USDC" || str_eq cur "USD")) [
      | inl dollars ↦ inl (round7 amount, rw dollars refl)
      | inr other ↦ elim (Option-cases conversion) [
        | inl missing ↦ inr (no_rate, rw (other, missing) refl)
        | inr (n, known) ↦ inl (round7 n, rw (other, known) refl)
      ]
    ]

or_amount-Reads :
    (given : Option JsNumber) (next : Call JsNumber) → Reads next → Reads (or_amount given next)
or_amount-Reads none next reads b = reads b
or_amount-Reads (some n) next reads b = inl (n, refl)

pub bind-Reads :
    {A B : Type 0} (c : Call A) (f : A → Call B)
    → Reads c
    → (b : Books)
    → ((e : LifecycleError) × (◌>>=◌ c f b ≡ (err e, b))) ⊎ ((a : A) × (◌>>=◌ c f b ≡ f a b))
bind-Reads c f reads b = elim (reads b) [
  | inl (a, known) ↦ inr (a, ground arith)
  | inr (e, failed) ↦ inl (e, ground arith)
]

-- The amount that is recorded, or else the one that the conversion gives.
pub usdc-Reads :
    (row : TxRow) (conversion : Option JsNumber)
    → Reads (or_amount (meta_usdc row) (resolve_usdc_amount row.amount row.currency conversion))
usdc-Reads row conversion =
    or_amount-Reads (meta_usdc row) (resolve_usdc_amount row.amount row.currency conversion)
      (resolve-Reads row.amount row.currency conversion)

-- A call that loads its row first.
pub load_tx-cases :
    {A : Type 0} (id : String) (org : Option String) (next : TxRow → Call A) (b : Books)
    → ((◌>>=◌ (load_tx id org) next b).1 ≡ b)
      ⊎ ((row : TxRow) × (find_tx id org b.txs ≡ some row)
          × (◌>>=◌ (load_tx id org) next b ≡ next row b))
unfolding load_tx
load_tx-cases id org next b = elim (Option-cases (find_tx id org b.txs)) [
  | inl missing ↦ inl (ground arith)
  | inr (row, found) ↦ inr (row, found, ground arith)
]

pub lock_row-cases :
    (row : TxRow) (given conversion : Option JsNumber) (b : Books)
    → ((lock_row row given conversion b).1 ≡ b)
      ⊎ ((amount : JsNumber) × (lock_row row given conversion b
            ≡ posting lock_org_funds
                (payout_write row amount ":lock" "funds_lock")
                row
                (locked row amount)
                b))
unfolding lock_row
lock_row-cases row given conversion b =
    let resolved = resolve_usdc_amount row.amount row.currency conversion in
    let rest = or_amount (meta_usdc row) resolved in
    elim (Bool-cases (is_payout row.direction)) [
      | inr other ↦ inl (rw other refl)
      | inl is_one ↦
          let known =
            bind-Reads (or_amount given rest)
              (λ amount.
                posting lock_org_funds (payout_write row amount ":lock" "funds_lock") row
                  (locked row amount))
              (or_amount-Reads given rest (usdc-Reads row conversion)) b in
          rw is_one
            (elim known [ inl (e, failed) ↦ inl (rw failed refl) | inr (n, same) ↦ inr (n, same) ])
    ]

-- ===== src/Transfers/Retry.antt =====
-- A request that is sent again under its idempotency key moves nothing.
use dayfi_backend.Base.{
  ℕ, ◌≡◌, ◌∙◌, refl, sym, ap, arith, String, Bool, false, some, none, List, inl, inr, or_else,
  Option-cases, Bool-cases,
}
use dayfi_backend.Ledger.Types.{LedgerMovement}
use dayfi_backend.Ledger.Store.Ensure.{ensure_wallet_account_lem}
use dayfi_backend.Ledger.Store.{wallet_id}
use dayfi_backend.Ledger.Balance.{get_org_balance}
use dayfi_backend.Transfers.Types.{
  TransferRow, TxEntry, FeeRow, Tables, TransferError, unique_violation, Result, ok, err, commit,
  as_env, find_transfer, Call, then_call,
}
use dayfi_backend.Transfers.Record.{Order, record_transfer}
use dayfi_backend.Transfers.Recipient.{Directory}
use dayfi_backend.Transfers.Create.{
  Settings, Drawn, Request, Checked, Presented, check_request, place_order, execute, recover,
  present, present_existing, proceed, needs_key, order_for, idem_of, create_internal_transfer,
  assert_can_pay, fee_of,
}
use dayfi_backend.Transfers.Keeps.{
  shape, CallKeeps, Blind, present-Keeps, present_existing-Keeps, assert_can_pay-Keeps,
}
use dayfi_backend.Transfers.Recorded.{rows, rows-Blind, record_transfer-found}

-- The movements, the transfers, the transactions and the fees.
abbrev pub Marks : Type 0
Marks = List LedgerMovement × List TransferRow × List TxEntry × List FeeRow

abbrev pub marks : Tables → Marks
marks t = (t.ledger.movements, t.transfers, t.entries, t.fees)

pub marks-Blind : Blind marks
unfolding get_org_balance
marks-Blind org env t b db done =
    ground (arith, ensure_wallet_account_lem (wallet_id org env none) t.ledger)

-- The table of transfers has a row with the key.
abbrev Known : Order → String → List TransferRow → Type 0
Known o key rs =
    (row : TransferRow) × (find_transfer o.sender_org_id o.environment key rs ≡ some row)

present-Known :
    (o : Order) (key : String) (duplicate : Bool) (row : TransferRow) (t : Tables)
    → Known o key t.transfers
    → Known o key (present duplicate row t).1.transfers
present-Known o key duplicate row t known = rw (present-Keeps rows rows-Blind duplicate row t) known

existing-Known :
    (o : Order) (key : String) (row : TransferRow) (t : Tables) (p : Presented) (t' : Tables)
    → find_transfer o.sender_org_id o.environment key t.transfers ≡ some row
    → present_existing o.fingerprint row t ≡ (ok p, t')
    → Known o key t'.transfers
existing-Known o key row t p t' found h =
    let kept = present_existing-Keeps rows rows-Blind o.fingerprint row t in
    let same : t'.transfers ≡ t.transfers = rw h at kept in (row, rw same found)

recover-Known :
    (o : Order) (key : String) (e : TransferError) (t : Tables) (p : Presented) (t' : Tables)
    → o.idem ≡ some key
    → recover o e t ≡ (ok p, t')
    → Known o key t'.transfers
unfolding recover
recover-Known o key unique_violation t p t' keyed h =
    elim (Option-cases (find_transfer o.sender_org_id o.environment key t.transfers)) [
      | inl missing ↦ absurd (ground arith)
      | inr (row, found) ↦
          let same : recover o unique_violation t ≡ present_existing o.fingerprint row t =
            rw (recover, keyed, found) refl in
          existing-Known o key row t p t' found (sym same ∙ h)
    ]
recover-Known o key e t p t' keyed h = absurd (ground arith)

-- What follows the transaction.
abbrev pub conclude : Order → Result TransferRow × Tables → Result Presented × Tables
conclude o x = elim x.0 [ ok row ↦ present false row x.1 | err e ↦ recover o e x.1 ]

pub committed :
    (o : Order) (t : Tables) (x : Result TransferRow × Tables)
    → commit (record_transfer o) t ≡ x
    → execute o t ≡ conclude o x
unfolding execute
committed o t x same = ap (λ (y : Result TransferRow × Tables). conclude o y) same

execute-Known :
    (o : Order) (key : String) (t : Tables) (p : Presented) (t' : Tables)
    → o.idem ≡ some key
    → execute o t ≡ (ok p, t')
    → Known o key t'.transfers
unfolding execute recover
execute-Known o key t p t' keyed h = elim (shape (record_transfer o t)) [
  | inr ((r, t1), done) ↦
      let same : execute o t ≡ present false r t1 =
        committed o t (ok r, t1) (rw (commit, done) refl) in
      let known = record_transfer-found o key t r t1 keyed done in
      let shown = present-Known o key false r t1 known in
      let left : (present false r t1).1 ≡ t' =
        ap (λ (x : Result Presented × Tables). x.1) (sym same ∙ h) in
      rw left at shown
  | inl (e, failed) ↦
      let same : execute o t ≡ recover o e t =
        committed o t (err e, t) (rw (commit, failed) refl) in
      recover-Known o key e t p t' keyed (sym same ∙ h)
]

place_order-Known :
    (o : Order) (key : String) (t : Tables) (p : Presented) (t' : Tables)
    → o.idem ≡ some key
    → place_order o t ≡ (ok p, t')
    → Known o key t'.transfers
unfolding place_order
place_order-Known o key t p t' keyed h =
    elim (Option-cases (find_transfer o.sender_org_id o.environment key t.transfers)) [
      | inl missing ↦
          let same : place_order o t ≡ execute o t = simp (place_order, keyed, missing) in
          execute-Known o key t p t' keyed (sym same ∙ h)
      | inr (row, found) ↦
          let same : place_order o t ≡ present_existing o.fingerprint row t =
            rw (place_order, keyed, found) refl in
          existing-Known o key row t p t' found (sym same ∙ h)
    ]

-- A key that is there already: the marks stay.
place_order-marks :
    (o : Order) (key : String) (row : TransferRow) (t : Tables)
    → o.idem ≡ some key
    → find_transfer o.sender_org_id o.environment key t.transfers ≡ some row
    → marks (place_order o t).1 ≡ marks t
unfolding place_order
place_order-marks o key row t keyed found =
    rw (place_order, keyed, found) (present_existing-Keeps marks marks-Blind o.fingerprint row t)

-- The same after a call that keeps the marks.
known_marks :
    (o : Order) (key : String) (row : TransferRow) (t : Tables) (m : Call (Unit {0}))
    → o.idem ≡ some key
    → find_transfer o.sender_org_id o.environment key t.transfers ≡ some row
    → CallKeeps marks m
    → marks (then_call m (proceed o) t).1 ≡ marks t
known_marks o key row t m keyed found keeps = elim (shape (m t).0) [
  | inl (e, failed) ↦ rw (then_call, failed) (keeps t)
  | inr (u, done) ↦
      let same : (m t).1.transfers ≡ t.transfers = ap (λ (x : Marks). x.1) (keeps t) in
      rw (then_call, done)
        ((elim (Bool-cases (needs_key o.environment o.idem)) [
          | inl missing ↦ rw (proceed, missing) refl
          | inr fine ↦
              rw (proceed, fine) (place_order-marks o key row (m t).1 keyed (rw same found))
        ])
          ∙ keeps t)
]

then_call-Known :
    (o : Order) (key : String) (t : Tables) (m : Call (Unit {0})) (p : Presented) (t' : Tables)
    → o.idem ≡ some key
    → then_call m (proceed o) t ≡ (ok p, t')
    → Known o key t'.transfers
then_call-Known o key t m p t' keyed h = elim (shape (m t).0) [
  | inl (e, failed) ↦
      let same : then_call m (proceed o) t ≡ (err e, (m t).1) = rw (then_call, failed) refl in
      absurd (ground (arith, sym same ∙ h))
  | inr (u, done) ↦
      let same : then_call m (proceed o) t ≡ proceed o u (m t).1 = rw (then_call, done) refl in
      elim (Bool-cases (needs_key o.environment o.idem)) [
        | inl missing ↦ absurd (ground (arith, sym same ∙ h))
        | inr fine ↦
            let placed : proceed o u (m t).1 ≡ place_order o (m t).1 = rw (proceed, fine) refl in
            place_order-Known o key (m t).1 p t' keyed (sym placed ∙ sym same ∙ h)
      ]
]

-- The environment that a request names.
abbrev pub env_of : Request → String
env_of q = as_env (or_else q.environment "test")

check_request-env :
    (dir : Directory) (q : Request) (c : Checked) → check_request dir q ≡ ok c → c.env ≡ env_of q
unfolding check_request
check_request-env dir q c h = ground arith

module _ (digest : ℕ → String → String → String) where
  create-Known :
      (s : Settings) (dir : Directory) (drawn : Drawn) (q : Request) (key : String) (t : Tables)
      (p : Presented) (t' : Tables)
      → idem_of q.idempotency_key ≡ some key
      → create_internal_transfer digest s dir drawn q t ≡ (ok p, t')
      → (row : TransferRow) × (find_transfer q.sender_org_id (env_of q) key t'.transfers ≡ some row)
  unfolding create_internal_transfer
  create-Known s dir drawn q key t p t' keyed h = elim (shape (check_request dir q)) [
    | inl (e, failed) ↦ absurd (ground arith)
    | inr (c, checked) ↦
        let o = order_for digest s drawn q c in
        let start : create_internal_transfer digest s dir drawn q t
            ≡ then_call (assert_can_pay q.sender_org_id c (fee_of s)) (proceed o) t =
          rw (create_internal_transfer, checked) refl in
        let known =
          then_call-Known o key t (assert_can_pay q.sender_org_id c (fee_of s)) p t' keyed
            (sym start ∙ h) in
        rw (check_request-env dir q c checked) at known
  ]

  create-marks :
      (s : Settings) (dir : Directory) (drawn : Drawn) (q : Request) (key : String)
      (row : TransferRow) (t : Tables)
      → idem_of q.idempotency_key ≡ some key
      → find_transfer q.sender_org_id (env_of q) key t.transfers ≡ some row
      → marks (create_internal_transfer digest s dir drawn q t).1 ≡ marks t
  unfolding create_internal_transfer
  create-marks s dir drawn q key row t keyed found = elim (shape (check_request dir q)) [
    | inl (e, failed) ↦ rw (create_internal_transfer, failed) refl
    | inr (c, checked) ↦
        let o = order_for digest s drawn q c in
        rw (create_internal_transfer, checked)
          (known_marks o key row t (assert_can_pay q.sender_org_id c (fee_of s)) keyed
            (rw (check_request-env dir q c checked) found)
            (assert_can_pay-Keeps marks marks-Blind q.sender_org_id c (fee_of s)))
  ]

  -- Once a transfer with an idempotency key has been answered, any request of the same organization in the
  -- same environment with that key, whatever else it asks for and whatever ids are drawn for it, adds no
  -- movement, transfer, transaction or fee, however it ends.
  pub transfer_retry :
      (s s' : Settings) (dir dir' : Directory) (drawn drawn' : Drawn) (q q' : Request)
      (key : String) (t : Tables) (p : Presented) (t' : Tables)
      → create_internal_transfer digest s dir drawn q t ≡ (ok p, t')
      → idem_of q.idempotency_key ≡ some key
      → idem_of q'.idempotency_key ≡ some key
      → q'.sender_org_id ≡ q.sender_org_id
      → env_of q' ≡ env_of q
      → marks (create_internal_transfer digest s' dir' drawn' q' t').1 ≡ marks t'
  transfer_retry s s' dir dir' drawn drawn' q q' key t p t' done keyed keyed' sender env =
      let (row, found) = create-Known s dir drawn q key t p t' keyed done in
      create-marks s' dir' drawn' q' key row t' keyed' (rw (sender, env) found)

-- ===== src/Transfers/Keeps.antt =====
-- What a step or a call leaves of the tables, seen through a function of them.
use dayfi_backend.Base.{
  ℕ, ◌+◌, ◌≡◌, ◌∙◌, refl, arith, String, Bool, true, none, List, ◌⊎◌, inl, inr, ltb, Bool-cases,
}
use dayfi_backend.Ledger.Types.{LedgerMovement, LedgerError, Balances}
use dayfi_backend.Ledger
use dayfi_backend.Ledger.Store.{Db, Tx}
use dayfi_backend.Ledger.Write.Posting.{Result-cases}
use dayfi_backend.Ledger.Balance.{get_org_balance}
use dayfi_backend.Transfers.Types.{
  TransferRow, Tables, TransferError, Result, ok, err, Step, ◌>>=◌, commit, on_ledger, Call,
  then_call,
}
use dayfi_backend.Transfers.Create.{
  covers, presented, present_recipient, read_balance, present, present_existing, differs,
  assert_can_pay, Checked,
}

pub shape :
    {A : Type 0} (r : Result A) → ((e : TransferError) × (r ≡ err e)) ⊎ ((a : A) × (r ≡ ok a))
shape (err e) = inl (e, refl)
shape (ok a) = inr (a, refl)

module _ {X : Type 0} (f : Tables → X) where
  -- A step that succeeds leaves what `f` sees.
  abbrev pub Keeps : {A : Type 0} → Step A → Type 0
  Keeps {A} m = (t : Tables) (a : A) (t' : Tables) → m t ≡ ok (a, t') → f t' ≡ f t

  -- A call leaves what `f` sees, whatever it answers.
  abbrev pub CallKeeps : {A : Type 0} → Call A → Type 0
  CallKeeps m = (t : Tables) → f (m t).1 ≡ f t

  pub bind-Keeps :
      {A B : Type 0} (m : Step A) (next : A → Step B)
      → Keeps m
      → ((a : A) → Keeps (next a))
      → Keeps (◌>>=◌ m next)
  bind-Keeps m next first rest t b t'' h = elim (shape (m t)) [
    | inl (e, failed) ↦ absurd (ground arith)
    | inr ((a, t'), done) ↦ rest a t' b t'' (ground arith) ∙ first t a t' done
  ]

  pub commit-Keeps : {A : Type 0} (m : Step A) → Keeps m → CallKeeps (commit m)
  commit-Keeps m keeps t = elim (shape (m t)) [
    | inl (e, failed) ↦ rw (commit, failed) refl
    | inr ((a, t'), done) ↦ rw (commit, done) (keeps t a t' done)
  ]

  pub then_call-Keeps :
      {A B : Type 0} (m : Call A) (next : A → Call B)
      → CallKeeps m
      → ((a : A) → CallKeeps (next a))
      → CallKeeps (then_call m next)
  then_call-Keeps m next first rest t = elim (shape (m t).0) [
    | inl (e, failed) ↦ rw (then_call, failed) (first t)
    | inr (a, done) ↦ rw (then_call, done) (rest a (m t).1 ∙ first t)
  ]

  pub on_ledger-Keeps :
      {A : Type 0} (body : List LedgerMovement → Tx A)
      → ((t : Tables) (a : A) (db : Db)
          → body t.ledger.movements t.ledger ≡ Ledger.Types.ok (a, db)
          → f (record t { ledger = db }) ≡ f t)
      → Keeps (on_ledger body)
  unfolding on_ledger
  on_ledger-Keeps body kept t a t' h = elim (Result-cases (body t.ledger.movements t.ledger)) [
    | inl (e, failed) ↦ absurd (ground arith)
    | inr ((b, db), done) ↦
        let same : t' ≡ record t { ledger = db } = ground arith in rw same (kept t b db done)
  ]

  -- `f` does not see what the reading of a balance changes.
  abbrev pub Blind : Type 0
  Blind =
      (org env : String) (t : Tables) (b : Balances) (db : Db)
      → get_org_balance org env none t.ledger ≡ Ledger.Types.ok (b, db)
      → f (record t { ledger = db }) ≡ f t

  module _ (blind : Blind) where
    pub read_balance-Keeps : (org env : String) → CallKeeps (read_balance org env)
    unfolding read_balance
    read_balance-Keeps org env = commit-Keeps (on_ledger (λ seen. get_org_balance org env none)) (
        on_ledger-Keeps (λ seen. get_org_balance org env none)
          (λ t b db done. blind org env t b db done))

    pub present-Keeps : (duplicate : Bool) (row : TransferRow) → CallKeeps (present duplicate row)
    unfolding present
    present-Keeps duplicate row =
        then_call-Keeps (read_balance row.sender_org_id row.environment)
          (present_recipient duplicate row) (read_balance-Keeps row.sender_org_id row.environment)
          (λ s.
            then_call-Keeps (read_balance row.recipient_org_id row.environment)
              (presented duplicate row s) (read_balance-Keeps row.recipient_org_id row.environment)
              (λ r t. refl))

    pub present_existing-Keeps :
        (fingerprint : String) (row : TransferRow) → CallKeeps (present_existing fingerprint row)
    unfolding present_existing
    present_existing-Keeps fingerprint row t =
        elim (Bool-cases (differs row.request_fingerprint fingerprint)) [
          | inl other ↦ rw (present_existing, other) refl
          | inr same ↦ rw (present_existing, same) (present-Keeps true row t)
        ]

    pub assert_can_pay-Keeps :
        (sender : String) (c : Checked) (fee : ℕ) → CallKeeps (assert_can_pay sender c fee)
    unfolding assert_can_pay
    assert_can_pay-Keeps sender c fee t = elim (Bool-cases (ltb 0 fee)) [
      | inl charged ↦
          rw (assert_can_pay, charged)
            (then_call-Keeps (read_balance sender c.env) (covers (c.amount + fee))
              (read_balance-Keeps sender c.env) (λ b t'. refl) t)
      | inr free ↦ rw (assert_can_pay, free) refl
    ]

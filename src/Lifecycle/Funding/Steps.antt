-- ===== src/Lifecycle/Funding/Steps.antt =====
-- What a call does to the settlements and payments of its own collection, and that it leaves all others.
use dayfi_backend.Base.{
  ◌≡◌, ◌∙◌, sym, refl, arith, String, Bool, ◌||◌, Option, none, some, ◌∷◌, inl, inr, Bool-cases,
  Option-cases,
}
use dayfi_backend.Ledger.Write.{release_pending_to_available}
use dayfi_backend.Ledger.Write.Posting.{Result-cases}
use dayfi_backend.Lifecycle.Funding.{
  FundingMode, off, mock, live, Settlement, Desk, SettlementStatus, pending, confirmed, submitted,
  pending_treasury, Outcome, Submission, Network, is_funding, find_settlement, update_settlements,
  with_status, ensure_settlement, answered, confirm_collection_funding, settle_submission,
  submit_funding, failed, await_treasury, pay_collection, check_treasury, with_wallet, fund_amount,
  release_params,
}
use dayfi_backend.Lifecycle.Funding.Rows.{
  Apart, not_funding, find-update_other, find_settlement-key, paid,
}

-- The settlement of a collection and how often it is paid are as before.
abbrev pub Same : String → String → Desk → Desk → Type 0
Same o k d d' =
    (find_settlement o k d'.settlements ≡ find_settlement o k d.settlements)
    × (paid o k d'.payments ≡ paid o k d.payments)

abbrev pub confirm_patch : String → Settlement → Settlement
confirm_patch hash x = record x { status = confirmed; external_reference = some hash }

pub confirm-parts :
    (s : Settlement) (hash : String) (d : Desk)
    → ((confirm_collection_funding s hash d).1.settlements
        ≡ update_settlements s.org_id s.idempotency_key (confirm_patch hash) d.settlements)
      × ((confirm_collection_funding s hash d).1.payments ≡ d.payments)
unfolding confirm_collection_funding
confirm-parts s hash d =
    let released =
      release_pending_to_available (release_params s) d.books.ledger.movements d.books.ledger in
    elim (Result-cases released.0) [
      | inl (e, h) ↦ rw (confirm_collection_funding, h) (refl, refl)
      | inr (posted, h) ↦ rw (confirm_collection_funding, h) (refl, refl)
    ]

abbrev pub submit_patch : String → Settlement → Settlement
submit_patch hash x = record x { status = submitted; external_reference = some hash }

-- The tables once the payment has been sent.
abbrev pub sent : Settlement → String → Desk → Desk
sent s hash d = record d {
  settlements = update_settlements s.org_id s.idempotency_key (submit_patch hash) d.settlements;
  payments =
      record { org_id = s.org_id; idempotency_key = s.idempotency_key; transaction_hash = hash }
      ∷ d.payments;
}

-- Calls for one collection leave all others.
module _ (o k : String) where
  confirm-Same :
      (s : Settlement) (hash : String) (d : Desk)
      → Apart o k s.org_id s.idempotency_key
      → Same o k d (confirm_collection_funding s hash d).1
  confirm-Same s hash d apart =
      let (settlements, payments) = confirm-parts s hash d in
      let other =
        find-update_other o k s.org_id s.idempotency_key (confirm_patch hash) d.settlements apart
          (λ x. (refl, refl)) in
      (rw settlements other, rw payments refl)

  sent-Same :
      (s : Settlement) (hash : String) (d : Desk)
      → Apart o k s.org_id s.idempotency_key
      → Same o k d (sent s hash d)
  unfolding is_funding
  sent-Same s hash d apart =
      let miss = not_funding o k s.org_id s.idempotency_key s apart refl refl in
      (
        find-update_other o k s.org_id s.idempotency_key (submit_patch hash) d.settlements apart
            (λ x. (refl, refl)),
        rw miss refl,
      )

  settle_submission-Same :
      (s : Settlement) (sub : Submission) (verified : Bool) (d : Desk)
      → Apart o k s.org_id s.idempotency_key
      → Same o k d (settle_submission s sub verified d).1
  unfolding settle_submission
  settle_submission-Same s sub verified d apart =
      let (found, counted) = sent-Same s sub.transaction_hash d apart in
      elim (Bool-cases (sub.is_final || verified)) [
        | inl final ↦
            let (found', counted') =
              confirm-Same s sub.transaction_hash (sent s sub.transaction_hash d) apart in
            rw (settle_submission, final) (found' ∙ found, counted' ∙ counted)
        | inr unsure ↦ rw (settle_submission, unsure) (found, counted)
      ]

  submit_funding-Same :
      (s : Settlement) (net : Network) (d : Desk)
      → Apart o k s.org_id s.idempotency_key
      → Same o k d (submit_funding s net d).1
  unfolding submit_funding
  submit_funding-Same s net d apart = elim (Option-cases net.payment) [
    | inl none_sent ↦ rw none_sent (
      find-update_other o k s.org_id s.idempotency_key (with_status failed) d.settlements apart
          (λ x. (refl, refl)),
      refl,
    )
    | inr (sub, sent) ↦ rw sent (settle_submission-Same s sub net.verified d apart)
  ]

  ensure_settlement-Same :
      (status : SettlementStatus) (fresh : Settlement) (d : Desk)
      → Apart o k fresh.org_id fresh.idempotency_key
      → Same o k d (ensure_settlement status fresh d).1
  unfolding ensure_settlement find_settlement
  ensure_settlement-Same status fresh d apart =
      let other =
        not_funding o k fresh.org_id fresh.idempotency_key (with_status status fresh) apart refl
          refl in
      elim (Option-cases (find_settlement fresh.org_id fresh.idempotency_key d.settlements)) [
        | inl missing ↦ rw (missing, ensure_settlement) (rw other refl, refl)
        | inr (s, found) ↦ rw (found, ensure_settlement) (refl, refl)
      ]

  pub ensured_key :
      (status : SettlementStatus) (fresh : Settlement) (d : Desk)
      → (fresh.org_id ≡ (ensure_settlement status fresh d).0.org_id)
        × (fresh.idempotency_key ≡ (ensure_settlement status fresh d).0.idempotency_key)
  unfolding ensure_settlement
  ensured_key status fresh d =
      elim (Option-cases (find_settlement fresh.org_id fresh.idempotency_key d.settlements)) [
        | inl missing ↦ rw (missing, ensure_settlement) (refl, refl)
        | inr (s, found) ↦
            rw (found, ensure_settlement)
              (find_settlement-key fresh.org_id fresh.idempotency_key d.settlements s found)
      ]

  ensured-Apart :
      (status : SettlementStatus) (fresh : Settlement) (d : Desk)
      → Apart o k fresh.org_id fresh.idempotency_key
      → Apart o k
          (ensure_settlement status fresh d).0.org_id
          (ensure_settlement status fresh d).0.idempotency_key
  ensured-Apart status fresh d apart same_org same_key =
      let (org, key) = ensured_key status fresh d in apart (same_org ∙ sym org) (same_key ∙ sym key)

  pub pay_collection-Same :
      (fresh : Settlement) (net : Network) (d : Desk)
      → Apart o k fresh.org_id fresh.idempotency_key
      → Same o k d (pay_collection fresh net d).1
  unfolding pay_collection
  pay_collection-Same fresh net d apart =
      let (found, counted) = ensure_settlement-Same pending fresh d apart in
      let (s, inserted) = ensure_settlement pending fresh d in
      let (found', counted') =
        submit_funding-Same s net inserted (ensured-Apart pending fresh d apart) in
      (found' ∙ found, counted' ∙ counted)

  pub await_treasury-Same :
      (fresh : Settlement) (d : Desk)
      → Apart o k fresh.org_id fresh.idempotency_key
      → Same o k d (await_treasury fresh d).1
  unfolding await_treasury
  await_treasury-Same fresh d apart =
      let (found, counted) = ensure_settlement-Same pending_treasury fresh d apart in
      let (s, inserted) = ensure_settlement pending_treasury fresh d in
      let other =
        find-update_other o k s.org_id s.idempotency_key (with_status pending_treasury)
          inserted.settlements (ensured-Apart pending_treasury fresh d apart) (λ x. (refl, refl)) in
      (other ∙ found, counted)

-- What a call does to the tables: nothing, a settlement that waits, or a payment; the last two only if
-- nothing is answered at once.
abbrev pub answered_at : Option Settlement → Option Outcome
answered_at none = none
answered_at (some s) = answered s

abbrev pub answer : String → String → Desk → Option Outcome
answer o k d = answered_at (find_settlement o k d.settlements)

module _ (P : Desk → Type 0) (fresh : Settlement) (net : Network) (d : Desk) (same : P d)
    (waits : P (await_treasury fresh d).1) (pays : P (pay_collection fresh net d).1) where
  check_treasury-any : (mode : FundingMode) → P (check_treasury mode fresh net d).1
  unfolding check_treasury
  check_treasury-any off = pays
  check_treasury-any mock = pays
  check_treasury-any live = ground arith

  with_wallet-any : (mode : FundingMode) → P (with_wallet mode fresh net d).1
  unfolding with_wallet
  with_wallet-any mode = ground (arith, check_treasury-any mode)

  pub fund_amount-any : (mode : FundingMode) → P (fund_amount mode fresh net d).1
  unfolding fund_amount
  fund_amount-any mode = ground (arith, with_wallet-any mode)

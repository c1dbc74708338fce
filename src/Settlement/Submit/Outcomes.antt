-- ===== src/Settlement/Submit/Outcomes.antt =====
-- What the ends of settlePayoutOnStellar and confirmStellarSettlement of infraSettlementService.ts leave
-- as it is.
use dayfi_backend.Base.{
  ◌≡◌, refl, String, not, Option, some, inl, inr, or_null, str_eq, Bool-cases, Option-cases,
}
use dayfi_backend.Lifecycle.Payout.{release_payout_lock}
use dayfi_backend.Lifecycle.Webhook.Kept.{shape}
use dayfi_backend.Settlement.{
  SettlementRow, Till, SettlementError, Verified, tx_failed, update_settlement_rows, find_row,
  confirm_and_finalize, fail_settlement, chain_failed, failure_text, apply_verified, confirm_loaded,
  confirm_stellar_settlement,
}
use dayfi_backend.Settlement.Checks.{Payment, Services}
use dayfi_backend.Settlement.Submit.{should_confirm, follow_payment, after_payment}

-- What is done about a payment that failed, whatever the call on the payout answers.
pub fail_settlement-till :
    (org : String) (s : SettlementRow) (reason : String) (e : SettlementError) (t : Till)
    → (fail_settlement org s reason e t).1 ≡ record t {
      books = (release_payout_lock s.payout_transaction_id (some org) (some "failed") t.books).1;
      settlements =
          update_settlement_rows s.id
            (λ r. record r { status = "failed"; failure_reason = some reason })
            t.settlements;
    }
unfolding fail_settlement
fail_settlement-till org s reason e t =
    elim (shape
      (release_payout_lock s.payout_transaction_id (some org) (some "failed") t.books).0) [
        | inl (x, failed) ↦ rw (fail_settlement, failed) refl
        | inr (posted, done) ↦ rw (fail_settlement, done) refl
      ]

-- What the two ends of a settlement keep is kept by all that leads to them.
module _ (Kept : Till → Type 0)
    (confirms : (org : String) (s : SettlementRow) (hash : Option String) (t : Till)
      → Kept t
      → Kept (confirm_and_finalize org s hash t).1)
    (fails : (org : String) (s : SettlementRow) (reason : String) (e : SettlementError) (t : Till)
      → Kept t
      → Kept (fail_settlement org s reason e t).1) where
  follow_payment-Kept :
      (org : String) (s : SettlementRow) (hash : String) (x : Verified) (t : Till)
      → Kept t
      → Kept (follow_payment org s hash x t).1
  unfolding follow_payment
  follow_payment-Kept org s hash x t kept = elim (Bool-cases x.confirmed) [
    | inl good ↦ rw (follow_payment, good) (confirms org s (some hash) t kept)
    | inr open_still ↦ elim (Bool-cases (chain_failed x)) [
      | inl bad ↦
          rw (follow_payment, open_still, bad) (fails org s (failure_text x) tx_failed t kept)
      | inr waits ↦ rw (follow_payment, open_still, waits) kept
    ]
  ]

  pub after_payment-Kept :
      (v : Services) (org : String) (s : SettlementRow) (p : Payment) (t : Till)
      → Kept t
      → Kept (after_payment v org s p t).1
  unfolding after_payment
  after_payment-Kept v org s p t kept = elim (Bool-cases (should_confirm p)) [
    | inl sure ↦ rw (after_payment, sure) (confirms org s (some p.transaction_hash) t kept)
    | inr unsure ↦
        rw (after_payment, unsure)
          (follow_payment-Kept org s p.transaction_hash (v.verify p.transaction_hash) t kept)
  ]

  apply_verified-Kept :
      (org : String) (s : SettlementRow) (hash : String) (x : Verified) (t : Till)
      → Kept t
      → Kept (apply_verified org s hash x t).1
  unfolding apply_verified
  apply_verified-Kept org s hash x t kept = elim (Bool-cases x.confirmed) [
    | inl good ↦ rw (apply_verified, good) (confirms org s (some hash) t kept)
    | inr open_still ↦ elim (Bool-cases (chain_failed x)) [
      | inl bad ↦
          rw (apply_verified, open_still, bad) (fails org s (failure_text x) tx_failed t kept)
      | inr waits ↦ rw (apply_verified, open_still, waits) kept
    ]
  ]

  confirm_loaded-Kept :
      (org : String) (s : SettlementRow) (verify : String → Verified) (t : Till)
      → Kept t
      → Kept (confirm_loaded org s verify t).1
  unfolding confirm_loaded
  confirm_loaded-Kept org s verify t kept = elim (Bool-cases (not (str_eq s.rail "STELLAR"))) [
    | inl other ↦ rw (confirm_loaded, other) kept
    | inr stellar ↦ elim (Bool-cases (str_eq s.status "confirmed")) [
      | inl done ↦ rw (confirm_loaded, stellar, done) kept
      | inr open_still ↦ elim (Option-cases (or_null s.external_reference)) [
        | inl unsent ↦ rw (confirm_loaded, stellar, open_still, unsent) kept
        | inr (hash, reference) ↦
            rw (confirm_loaded, stellar, open_still, reference)
              (apply_verified-Kept org s hash (verify hash) t kept)
      ]
    ]
  ]

  pub confirm_stellar_settlement-Kept :
      (org id : String) (verify : String → Verified) (t : Till)
      → Kept t
      → Kept (confirm_stellar_settlement org id verify t).1
  unfolding confirm_stellar_settlement
  confirm_stellar_settlement-Kept org id verify t kept =
      elim (Option-cases (find_row org id t.settlements)) [
        | inl missing ↦ rw (confirm_stellar_settlement, missing) kept
        | inr (s, found) ↦
            rw (confirm_stellar_settlement, found) (confirm_loaded-Kept org s verify t kept)
      ]

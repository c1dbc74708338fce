-- ===== src/Settlement/Confirm.antt =====
-- A settlement of infraSettlementService.ts that has been confirmed stays as it is.
use dayfi_backend.Base.{
  ◌≡◌, refl, ap, arith, String, true, false, not, Option, some, List, [], ◌∷◌, inl, inr, str_eq,
  eq_iff, Bool-cases, or_null,
}
use dayfi_backend.Lifecycle.Payout.{finalize_payout_debit}
use dayfi_backend.Lifecycle.Webhook.Kept.{shape}
use dayfi_backend.Settlement.{
  SettlementRow, Till, Verified, first_of, is_settlement, find_row, update_settlement_rows,
  confirmed_row, confirm_and_finalize, apply_verified, confirm_loaded, confirm_stellar_settlement,
}

pub find-update :
    (org id : String) (patch : SettlementRow → SettlementRow) (rs : List SettlementRow)
    (s : SettlementRow)
    → ((r : SettlementRow) → ((patch r).id ≡ r.id) × ((patch r).org_id ≡ r.org_id))
    → find_row org id rs ≡ some s
    → find_row org id (update_settlement_rows s.id patch rs) ≡ some (patch s)
unfolding find_row update_settlement_rows
find-update org id patch [] s kept found = absurd (ground arith)
find-update org id patch (r ∷ rs) s kept found =
    let rest = find-update org id patch rs s kept in
    let (same_id, same_org) = kept r in
    elim (Bool-cases (is_settlement org id r)) [
      | inl hit ↦
          let here : r ≡ s = ground arith in
          let own : str_eq s.id r.id ≡ true =
            ground (arith, ap (λ (x : SettlementRow). x.id) here, eq_iff s.id r.id) in
          let still : is_settlement org id (patch r) ≡ true = rw (same_id, same_org) hit in
          rw (own, still) (ap (λ (x : SettlementRow). some (patch x)) here)
      | inr miss ↦ elim (Bool-cases (str_eq s.id r.id)) [
        | inl also ↦ rw (also, same_id, same_org, miss) (rest (ground arith))
        | inr other ↦ rw (other, miss) (rest (ground arith))
      ]
    ]

-- What is done when the network has confirmed the payment, whatever the call on the payout answers.
pub confirm_and_finalize-till :
    (org : String) (s : SettlementRow) (given : Option String) (t : Till)
    → (confirm_and_finalize org s given t).1 ≡ record t {
      books = (finalize_payout_debit s.payout_transaction_id (some org) t.books).1;
      settlements =
          update_settlement_rows s.id
            (confirmed_row (first_of (or_null given) (or_null s.external_reference)))
            t.settlements;
    }
unfolding confirm_and_finalize
confirm_and_finalize-till org s given t =
    elim (shape (finalize_payout_debit s.payout_transaction_id (some org) t.books).0) [
      | inl (e, failed) ↦ rw (confirm_and_finalize, failed) refl
      | inr (posted, done) ↦ rw (confirm_and_finalize, done) refl
    ]

-- A call for a settlement that is confirmed already.
confirm-again :
    (org id : String) (verify : String → Verified) (t : Till) (s : SettlementRow)
    → find_row org id t.settlements ≡ some s
    → s.status ≡ "confirmed"
    → (confirm_stellar_settlement org id verify t).1 ≡ t
unfolding confirm_stellar_settlement confirm_loaded
confirm-again org id verify t s found confirmed =
    elim (Bool-cases (not (str_eq s.rail "STELLAR"))) [
      | inl other ↦ rw (confirm_stellar_settlement, found, confirm_loaded, other) refl
      | inr stellar ↦
          rw (confirm_stellar_settlement, found, confirm_loaded, stellar, confirmed) refl
    ]

-- The call on a settlement on the Stellar network that is not confirmed, has a reference, and whose
-- payment the network reports as confirmed makes one call to finalize the payout. Whatever that call
-- answers, an error as well, every later call for the settlement leaves all tables as they are.
pub confirm_final :
    (org id hash : String) (verify later : String → Verified) (t : Till) (s : SettlementRow)
    → find_row org id t.settlements ≡ some s
    → s.rail ≡ "STELLAR"
    → str_eq s.status "confirmed" ≡ false
    → or_null s.external_reference ≡ some hash
    → (verify hash).confirmed ≡ true
    → ((confirm_stellar_settlement org id verify t).1.books
        ≡ (finalize_payout_debit s.payout_transaction_id (some org) t.books).1)
      × ((confirm_stellar_settlement org id later (confirm_stellar_settlement org id verify t).1).1
          ≡ (confirm_stellar_settlement org id verify t).1)
unfolding confirm_stellar_settlement confirm_loaded apply_verified
confirm_final org id hash verify later t s found stellar open_still reference confirmed =
    let row = confirmed_row (first_of (or_null (some hash)) (or_null s.external_reference)) in
    let rail : str_eq s.rail "STELLAR" ≡ true = ap (λ (r : String). str_eq r "STELLAR") stellar in
    let till : (confirm_stellar_settlement org id verify t).1
        ≡ (confirm_and_finalize org s (some hash) t).1 =
      rw
        (
          confirm_stellar_settlement, found, confirm_loaded, rail, open_still, reference,
          apply_verified, confirmed,
        )
        refl in
    let marked : find_row org id (update_settlement_rows s.id row t.settlements) ≡ some (row s) =
      find-update org id row t.settlements s (λ r. (refl, refl)) found in
    let there : find_row org id (confirm_and_finalize org s (some hash) t).1.settlements
        ≡ some (row s) =
      rw (confirm_and_finalize-till org s (some hash) t) marked in
    (
      rw (till, confirm_and_finalize-till org s (some hash) t) refl,
      rw till (
          confirm-again org id later (confirm_and_finalize org s (some hash) t).1 (row s) there
            refl),
    )

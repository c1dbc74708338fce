-- ===== src/Settlement/Submit/Steps.antt =====
-- The steps of settlePayoutOnStellar of infraSettlementService.ts after its checks: what they lead to.
use dayfi_backend.Base.{
  ◌≡◌, refl, String, Option, some, List, ◌∷◌, ◌⊎◌, inl, inr, str_eq, Bool-cases, Option-cases,
}
use dayfi_backend.Ledger.Types.{JsNumber}
use dayfi_backend.Lifecycle.Types.{TxRow}
use dayfi_backend.Settlement.{
  SettlementRow, Till, Answer, SettlementError, submit_failed, update_settlement_rows, find_row,
  confirm_and_finalize, fail_settlement,
}
use dayfi_backend.Settlement.Checks.{
  Payment, Services, Submitted, accepted, rejected, Checked, passes, stops, resolve_payout_signing,
  secret_of, find_by_key,
}
use dayfi_backend.Settlement.Submit.{
  submitted_row, record_payment, submit_payment, settlement_key, fresh_row, known_payment,
  resume_settlement, place_settlement,
}
use dayfi_backend.Settlement.Submit.Outcomes.{after_payment-Kept}

pub Checked-cases :
    {A : Type 0} (c : Checked A) → ((x : Answer) × (c ≡ stops x)) ⊎ ((a : A) × (c ≡ passes a))
Checked-cases (stops x) = inl (x, refl)
Checked-cases (passes a) = inr (a, refl)

Submitted-cases :
    (r : Submitted) → ((e : String) × (r ≡ rejected e)) ⊎ ((p : Payment) × (r ≡ accepted p))
Submitted-cases (rejected e) = inl (e, refl)
Submitted-cases (accepted p) = inr (p, refl)

-- A payment of the row may be recorded once; all else that is done keeps what holds.
module _ (v : Services) (org : String) (row : TxRow) (address : String) (amount : JsNumber)
    (secret : Option String) (Before After : Till → Type 0)
    (weakens : (t : Till) → Before t → After t)
    (moves : (t : Till) (rows : List SettlementRow)
      → Before t
      → Before (record t { settlements = rows }))
    (sends : (t : Till) (rows : List SettlementRow)
      → Before t
      → After (record t {
        settlements = rows;
        sent = record { payout_id = row.id; destination = address; amount = amount } ∷ t.sent;
      }))
    (confirms : (org : String) (s : SettlementRow) (hash : Option String) (t : Till)
      → After t
      → After (confirm_and_finalize org s hash t).1)
    (fails : (org : String) (s : SettlementRow) (reason : String) (e : SettlementError) (t : Till)
      → After t
      → After (fail_settlement org s reason e t).1) where
  record_payment-After :
      (s : SettlementRow) (p : Payment) (t : Till)
      → Before t
      → After (record_payment v org row address amount s p t).1
  unfolding record_payment
  record_payment-After s p t before =
      let rows = update_settlement_rows s.id (submitted_row p) t.settlements in
      let t' : Till = record t {
        settlements = rows;
        sent = record { payout_id = row.id; destination = address; amount = amount } ∷ t.sent;
      } in
      elim (Option-cases (find_row org s.id rows)) [
        | inl missing ↦ rw (record_payment, missing) (sends t rows before)
        | inr (s', found) ↦
            rw (record_payment, found)
              (after_payment-Kept After confirms fails v org s' p t' (sends t rows before))
      ]

  submit_payment-After :
      (s : SettlementRow) (t : Till)
      → Before t
      → After (submit_payment v org row address amount secret s t).1
  unfolding submit_payment
  submit_payment-After s t before =
      elim (Checked-cases (resolve_payout_signing v row amount secret)) [
        | inl (x, stopped) ↦ rw (submit_payment, stopped) (weakens t before)
        | inr (keys, signed) ↦
            elim (Submitted-cases (v.submit address amount (secret_of keys secret))) [
              | inl (reason, failed) ↦
                  rw (submit_payment, signed, failed)
                    (fails org s reason submit_failed t (weakens t before))
              | inr (p, sent) ↦
                  rw (submit_payment, signed, sent) (record_payment-After s p t before)
            ]
      ]

  resume_settlement-After :
      (s : SettlementRow) (t : Till)
      → Before t
      → After (resume_settlement v org row address amount secret s t).1
  unfolding resume_settlement
  resume_settlement-After s t before = elim (Bool-cases (str_eq s.status "confirmed")) [
    | inl done ↦ rw (resume_settlement, done) (weakens t before)
    | inr open_still ↦ elim (Option-cases (known_payment v s)) [
      | inl unknown ↦ rw (resume_settlement, open_still, unknown) (submit_payment-After s t before)
      | inr (hash, known) ↦
          rw (resume_settlement, open_still, known)
            (confirms org s (some hash) t (weakens t before))
    ]
  ]

  pub place_settlement-After :
      (fresh : String) (t : Till)
      → Before t
      → After (place_settlement v org row address amount secret fresh t).1
  unfolding place_settlement
  place_settlement-After fresh t before =
      elim (Option-cases (find_by_key org (settlement_key row.id) t.settlements)) [
        | inr (s, found) ↦ rw (place_settlement, found) (resume_settlement-After s t before)
        | inl missing ↦
            let s = fresh_row org row address amount fresh in
            let rows = s ∷ t.settlements in
            rw (place_settlement, missing)
              (submit_payment-After s (record t { settlements = rows }) (moves t rows before))
      ]

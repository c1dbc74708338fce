-- ===== src/Lifecycle/Funding/Once.antt =====
-- A collection is paid on chain at most once, as long as every submission is settled by its call.
use dayfi_backend.Base.{
  All, ◌≡◌, ◌≤◌, refl, arith, String, Bool, true, false, ◌||◌, some, List, [], ◌∷◌, ◌⊎◌, inl, inr,
  eq_refl, Bool-cases, Option-cases,
}
use dayfi_backend.Ledger.Types.{JsNumber}
use dayfi_backend.Lifecycle.Types.{round7, positive}
use dayfi_backend.Lifecycle.Funding.{
  FundingMode, Settlement, Desk, SettlementStatus, pending, confirmed, pending_treasury, Outcome,
  reached, Submission, Network, is_funding, find_settlement, ensure_settlement, answered,
  settle_submission, submit_funding, await_treasury, pay_collection, fund_amount,
  fund_collection_stellar_wallet, fresh_settlement, funding_key, is_off,
}
use dayfi_backend.Lifecycle.Funding.Rows.{Apart, is_funding_eq, find-update_own, paid}
use dayfi_backend.Lifecycle.Funding.Steps.{
  Same, answer, confirm_patch, submit_patch, sent, confirm-parts, pay_collection-Same,
  await_treasury-Same, fund_amount-any, ensured_key,
}

-- The collection has not been paid, or it has been paid once and every further call only answers so.
abbrev pub Once : String → String → Desk → Type 0
Once o k d =
    (paid o k d.payments ≡ 0)
    ⊎ ((paid o k d.payments ≡ 1) × (answer o k d ≡ some (reached confirmed)))

Once-Same : (o k : String) (d d' : Desk) → Same o k d d' → Once o k d → Once o k d'
Once-Same o k d d' (found, counted) once = rw (found, counted) once

-- Every submission that goes through is final, or can be verified.
abbrev pub Sure : Network → Type 0
Sure net = (sub : Submission) → net.payment ≡ some sub → (sub.is_final || net.verified) ≡ true

settle_submission-Once :
    (s : Settlement) (sub : Submission) (verified : Bool) (d : Desk)
    → find_settlement s.org_id s.idempotency_key d.settlements ≡ some s
    → paid s.org_id s.idempotency_key d.payments ≡ 0
    → (sub.is_final || verified) ≡ true
    → Once s.org_id s.idempotency_key (settle_submission s sub verified d).1
unfolding settle_submission answered
settle_submission-Once s sub verified d found unpaid final =
    let once =
      find-update_own s.org_id s.idempotency_key (submit_patch sub.transaction_hash) d.settlements s
        (λ x. (refl, refl)) found in
    let twice =
      find-update_own s.org_id s.idempotency_key (confirm_patch sub.transaction_hash)
        (sent s sub.transaction_hash d).settlements (submit_patch sub.transaction_hash s)
        (λ x. (refl, refl)) once in
    let (settlements, payments) =
      confirm-parts s sub.transaction_hash (sent s sub.transaction_hash d) in
    let own = eq_refl s.org_id in
    let own' = eq_refl s.idempotency_key in
    rw (settle_submission, final)
      (inr (rw (payments, own, own', unpaid) refl, rw (settlements, twice) refl))

submit_funding-Once :
    (s : Settlement) (net : Network) (d : Desk)
    → find_settlement s.org_id s.idempotency_key d.settlements ≡ some s
    → paid s.org_id s.idempotency_key d.payments ≡ 0
    → Sure net
    → Once s.org_id s.idempotency_key (submit_funding s net d).1
unfolding submit_funding
submit_funding-Once s net d found unpaid sure = elim (Option-cases net.payment) [
  | inl none_sent ↦ rw none_sent (inl unpaid)
  | inr (sub, sent_it) ↦
      rw sent_it (settle_submission-Once s sub net.verified d found unpaid (sure sub sent_it))
]

submit_funding-at :
    (o k : String) (s : Settlement) (net : Network) (d : Desk)
    → o ≡ s.org_id
    → k ≡ s.idempotency_key
    → find_settlement o k d.settlements ≡ some s
    → paid o k d.payments ≡ 0
    → Sure net
    → Once o k (submit_funding s net d).1
submit_funding-at o k s net d org key found unpaid sure =
    rw (org, key)
      (submit_funding-Once s net d (rw (org, key) at found) (rw (org, key) at unpaid) sure)

ensured_found :
    (status : SettlementStatus) (fresh : Settlement) (d : Desk)
    → find_settlement fresh.org_id fresh.idempotency_key
        (ensure_settlement status fresh d).1.settlements
      ≡ some (ensure_settlement status fresh d).0
unfolding ensure_settlement find_settlement is_funding
ensured_found status fresh d =
    elim (Option-cases (find_settlement fresh.org_id fresh.idempotency_key d.settlements)) [
      | inl missing ↦
          rw (missing, ensure_settlement)
            (rw (eq_refl fresh.org_id, eq_refl fresh.idempotency_key) refl)
      | inr (s, found) ↦ rw (found, ensure_settlement) found
    ]

ensured_paid :
    (status : SettlementStatus) (fresh : Settlement) (d : Desk)
    → (ensure_settlement status fresh d).1.payments ≡ d.payments
unfolding ensure_settlement
ensured_paid status fresh d = ground arith

pay_collection-Once :
    (fresh : Settlement) (net : Network) (d : Desk)
    → paid fresh.org_id fresh.idempotency_key d.payments ≡ 0
    → Sure net
    → Once fresh.org_id fresh.idempotency_key (pay_collection fresh net d).1
unfolding pay_collection
pay_collection-Once fresh net d unpaid sure =
    let (org, key) = ensured_key fresh.org_id fresh.idempotency_key pending fresh d in
    let found = ensured_found pending fresh d in
    let same = ensured_paid pending fresh d in
    submit_funding-at fresh.org_id fresh.idempotency_key (ensure_settlement pending fresh d).0 net
      (ensure_settlement pending fresh d).1 org key found (rw same unpaid) sure

await_treasury-Once :
    (fresh : Settlement) (d : Desk)
    → paid fresh.org_id fresh.idempotency_key d.payments ≡ 0
    → Once fresh.org_id fresh.idempotency_key (await_treasury fresh d).1
unfolding await_treasury
await_treasury-Once fresh d unpaid = inl (rw (ensured_paid pending_treasury fresh d) unpaid)

-- A call for one collection, with what the network answers.
pub record FundingCall : Type 0 where
  pub mode : FundingMode
  pub network : Network
  pub org_id : String
  pub environment : String
  pub collection_id : String
  pub usdc_amount : JsNumber

unfoldable pub after_call : FundingCall → Desk → Desk
after_call c d =
    (fund_collection_stellar_wallet c.mode c.network c.org_id c.environment c.collection_id
      c.usdc_amount d).1

-- The tables after the calls, the last one first.
unfoldable pub calls : List FundingCall → Desk → Desk
calls [] d = d
calls (c ∷ cs) d = after_call c (calls cs d)

is_funding-Apart :
    (o k : String) (s : Settlement)
    → is_funding o k s ≡ false
    → Apart o k s.org_id s.idempotency_key
unfolding is_funding
is_funding-Apart o k s miss org key = ground (arith, eq_refl s.org_id, eq_refl s.idempotency_key)

-- A call that is answered at once changes nothing.
pub fund_amount-answered :
    (mode : FundingMode) (fresh : Settlement) (net : Network) (d : Desk) (out : Outcome)
    → answer fresh.org_id fresh.idempotency_key d ≡ some out
    → fund_amount mode fresh net d ≡ (out, d)
unfolding fund_amount
fund_amount-answered mode fresh net d out closed =
    elim (Option-cases (find_settlement fresh.org_id fresh.idempotency_key d.settlements)) [
      | inl missing ↦ absurd (ground arith)
      | inr (s, found) ↦
          let said : answered s ≡ some out = rw found at closed in
          rw (fund_amount, found, said) refl
    ]

fund_amount-own :
    (mode : FundingMode) (fresh : Settlement) (net : Network) (d : Desk)
    → Sure net
    → Once fresh.org_id fresh.idempotency_key d
    → Once fresh.org_id fresh.idempotency_key (fund_amount mode fresh net d).1
fund_amount-own mode fresh net d sure (inl unpaid) =
    fund_amount-any (Once fresh.org_id fresh.idempotency_key) fresh net d (inl unpaid)
      (await_treasury-Once fresh d unpaid) (pay_collection-Once fresh net d unpaid sure) mode
fund_amount-own mode fresh net d sure (inr (once, closed)) =
    rw (fund_amount-answered mode fresh net d (reached confirmed) closed) (inr (once, closed))

fund_amount-Once :
    (o k : String) (mode : FundingMode) (fresh : Settlement) (net : Network) (d : Desk)
    → Sure net
    → Once o k d
    → Once o k (fund_amount mode fresh net d).1
fund_amount-Once o k mode fresh net d sure once = elim (Bool-cases (is_funding o k fresh)) [
  | inl own ↦
      let (org, key) = is_funding_eq o k fresh own in
      rw (org, key) (fund_amount-own mode fresh net d sure (rw (org, key) at once))
  | inr other ↦
      let apart = is_funding-Apart o k fresh other in
      fund_amount-any (λ d'. Once o k d') fresh net d once
        (Once-Same o k d (await_treasury fresh d).1 (await_treasury-Same o k fresh d apart) once)
        (Once-Same o k d (pay_collection fresh net d).1 (pay_collection-Same o k fresh net d apart)
          once)
        mode
]

after_call-Once :
    (o k : String) (c : FundingCall) (d : Desk)
    → Sure c.network
    → Once o k d
    → Once o k (after_call c d)
unfolding after_call fund_collection_stellar_wallet
after_call-Once o k c d sure once = elim (Bool-cases (is_off c.mode)) [
  | inl unused ↦ rw (after_call, fund_collection_stellar_wallet, unused) once
  | inr used ↦ elim (Option-cases (positive (round7 c.usdc_amount))) [
    | inl invalid ↦ rw (after_call, fund_collection_stellar_wallet, used, invalid) once
    | inr (n, valid) ↦
        rw (after_call, fund_collection_stellar_wallet, used, valid)
          (fund_amount-Once o k c.mode (fresh_settlement c.org_id c.environment c.collection_id n)
            c.network d sure once)
  ]
]

calls-Once :
    (o k : String) (cs : List FundingCall) (d : Desk)
    → All (λ c. Sure c.network) cs
    → Once o k d
    → Once o k (calls cs d)
unfolding calls
calls-Once o k [] d sure once = once
calls-Once o k (c ∷ cs) d (sure, rest) once =
    after_call-Once o k c (calls cs d) sure (calls-Once o k cs d rest once)

-- If a collection has not been paid, it is paid on chain at most once by any history of calls, whatever
-- their modes and collections, in which every submission that goes through is final or can be verified.
pub paid_once :
    (cs : List FundingCall) (org id : String) (d : Desk)
    → All (λ c. Sure c.network) cs
    → paid org (funding_key id) d.payments ≡ 0
    → paid org (funding_key id) (calls cs d).payments ≤ 1
paid_once cs org id d sure unpaid =
    let once = calls-Once org (funding_key id) cs d sure (inl unpaid) in ground arith

-- ===== src/Settlement/Submit.antt =====
-- `settlePayoutOnStellar`, after its checks. The calls follow one another, so the INSERT of a settlement
-- meets no row with its key.
pub mod Outcomes
pub mod Steps
pub mod Guards
pub mod Tests
use dayfi_backend.Settlement.Checks.{
  Checked, passes, stops, Keys, Payment, Services, accepted, rejected, check_payout, find_by_key,
  find_payout, resolve_payout_signing, secret_of,
}
use Prim.Native.Char.{code}
use Prim.Native.String
use dayfi_backend.Base.{
  ℕ, ◌+◌, ◌-◌, String, Bool, true, false, ◌&&◌, ◌||◌, not, Option, none, some, List, [], ◌∷◌,
  is_null, is_empty, leb, ltb, ◌==◌, or_null, or_else, trim, to_lower, to_upper, str_eq,
  if◌then◌else◌,
}
use dayfi_backend.Base.Int.{pos, ltb_ℤ}
use dayfi_backend.Ledger.Types.{JsNumber, not_finite, finite, sub_units}
use dayfi_backend.Lifecycle.Types.{TxRow, as_env, positive, find_tx}
use dayfi_backend.Lifecycle.Payout.{is_payout}
use dayfi_backend.Lifecycle.YellowCard.{includes}
use dayfi_backend.Settlement.{
  SettlementRow, Sent, Till, SettlementError, not_found, tx_failed, payout_not_found,
  unsupported_method, not_locked, payout_finalized, no_destination, unsupported_network,
  unsupported_asset, invalid_address, self_transfer, invalid_amount, mainnet_blocked,
  insufficient_onchain_balance, org_wallet_unavailable, submit_failed, Answer, settled_as,
  pending_as, refused, Verified, find_row, update_settlement_rows, confirm_and_finalize,
  fail_settlement, chain_failed, failure_text,
}

-- `shouldConfirm`
abbrev pub should_confirm : Payment → Bool
should_confirm p =
    p.is_mock || p.has_ledger_sequence || includes (to_upper p.final_status) "SUCCESS"

-- What follows on what the network says of a payment just sent.
unfoldable pub follow_payment : String → SettlementRow → String → Verified → Till → Answer × Till
follow_payment org s hash x t =
    if x.confirmed
    then confirm_and_finalize org s (some hash) t
    else if chain_failed x
    then fail_settlement org s (failure_text x) tx_failed t
    else (pending_as s, t)

unfoldable pub after_payment : Services → String → SettlementRow → Payment → Till → Answer × Till
after_payment v org s p t =
    if should_confirm p
    then confirm_and_finalize org s (some p.transaction_hash) t
    else follow_payment org s p.transaction_hash (v.verify p.transaction_hash) t

abbrev pub submitted_row : Payment → SettlementRow → SettlementRow
submitted_row p r = record r {
  status = "submitted";
  source_ref = some p.source_account;
  destination_ref = some p.destination_account;
  external_reference = some p.transaction_hash;
  provider_reference = some p.transaction_hash;
}

-- The payment has been sent: the settlement is marked, and loaded again.
unfoldable pub record_payment :
    Services → String → TxRow → String → JsNumber → SettlementRow → Payment → Till → Answer × Till
record_payment v org row address amount s p t =
    let t' = record t {
      settlements = update_settlement_rows s.id (submitted_row p) t.settlements;
      sent = record { payout_id = row.id; destination = address; amount = amount } ∷ t.sent;
    } in
    elim (find_row org s.id t'.settlements) [
      | none ↦ (refused not_found, t')
      | some s' ↦ after_payment v org s' p t'
    ]

-- The signing and the payment.
unfoldable pub submit_payment :
    Services
    → String
    → TxRow
    → String
    → JsNumber
    → Option String
    → SettlementRow
    → Till
    → Answer × Till
submit_payment v org row address amount secret s t =
    elim (resolve_payout_signing v row amount secret) [
      | stops x ↦ (x, t)
      | passes keys ↦ elim (v.submit address amount (secret_of keys secret)) [
        | rejected reason ↦ fail_settlement org s reason submit_failed t
        | accepted p ↦ record_payment v org row address amount s p t
      ]
    ]

abbrev pub settlement_key : String → String
settlement_key id = String.◌++◌ "stellar:payout:" id

abbrev pub fresh_row : String → TxRow → String → JsNumber → String → SettlementRow
fresh_row org row address amount fresh = record {
  id = fresh;
  org_id = org;
  environment = as_env row.environment;
  payout_transaction_id = row.id;
  rail = "STELLAR";
  asset = "USDC";
  amount = amount;
  source_ref = none;
  destination_ref = some address;
  status = "pending";
  external_reference = none;
  provider_reference = none;
  failure_reason = none;
  idempotency_key = settlement_key row.id;
}

-- The hash of a payment that has been sent before and that the network has confirmed.
abbrev pub known_payment : Services → SettlementRow → Option String
known_payment v s =
    if str_eq s.status "submitted"
    then (elim (or_null s.external_reference) [
      | none ↦ none
      | some hash ↦ if (v.verify hash).confirmed then some hash else none
    ])
    else none

-- A settlement that is there already.
unfoldable pub resume_settlement :
    Services
    → String
    → TxRow
    → String
    → JsNumber
    → Option String
    → SettlementRow
    → Till
    → Answer × Till
resume_settlement v org row address amount secret s t =
    if str_eq s.status "confirmed" then (settled_as s, t) else elim (known_payment v s) [
      | some hash ↦ confirm_and_finalize org s (some hash) t
      | none ↦ submit_payment v org row address amount secret s t
    ]

unfoldable pub place_settlement :
    Services → String → TxRow → String → JsNumber → Option String → String → Till → Answer × Till
place_settlement v org row address amount secret fresh t =
    elim (find_by_key org (settlement_key row.id) t.settlements) [
      | some s ↦ resume_settlement v org row address amount secret s t
      | none ↦
          let s = fresh_row org row address amount fresh in
          submit_payment v org row address amount secret s
            (record t { settlements = s ∷ t.settlements })
    ]

-- `settlePayoutOnStellar`; `fresh` is the id that the database draws for a settlement.
unfoldable pub settle_payout_on_stellar :
    Services → String → String → Option String → String → Till → Answer × Till
settle_payout_on_stellar v org id secret fresh t = elim (find_payout org id t.books.txs) [
  | none ↦ (refused payout_not_found, t)
  | some row ↦ elim (check_payout v row t) [
    | stops x ↦ (x, t)
    | passes (address, amount) ↦ place_settlement v org row address amount secret fresh t
  ]
]

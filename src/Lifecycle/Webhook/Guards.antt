-- ===== src/Lifecycle/Webhook/Guards.antt =====
-- When a webhook may touch the ledger.
use dayfi_backend.Base.{
  ◌≡◌, refl, arith, String, true, false, ◌&&◌, Option, none, some, ◌⊎◌, inl, inr, is_empty,
  Bool-cases, Option-cases,
}
use dayfi_backend.Ledger.Types.{JsNumber}
use dayfi_backend.Ledger.Store.{Db}
use dayfi_backend.Lifecycle.Types.{TxRow, payout, positive}
use dayfi_backend.Lifecycle.Payout.{is_payout}
use dayfi_backend.Lifecycle.Funding.{FundingMode, Network}
use dayfi_backend.Lifecycle.Collection.{is_collection, is_settled}
use dayfi_backend.Lifecycle.YellowCard.{
  WalletStatus, success_payment, failed_payment, pending_payment, YellowCardWebhookPayload,
  resolve_wallet_status, event_of, is_receive_event,
}
use dayfi_backend.Lifecycle.Webhook.{
  Office, find_external, sequence_of, provider_event, apply_to_payout, apply_to_row,
  apply_infra_yellow_card_webhook, patch_status, Charge, tx_ref_of, mismatches, apply_charge,
  is_flutterwave, is_naira, apply_infra_flutterwave_webhook,
}

abbrev pub ledger_of : Office → Db
ledger_of o = o.desk.books.ledger

-- The provider and the receipt on chain speak for the same end of an off-ramp payout.
abbrev pub Agrees : Option WalletStatus → TxRow → Type 0
Agrees mapped row =
    ((mapped ≡ some success_payment) × (row.stellar_confirmed ≡ true))
    ⊎ ((mapped ≡ some failed_payment) × (row.stellar_confirmed ≡ false))

apply_to_payout-guarded :
    (mapped : Option WalletStatus) (row : TxRow) (event : String) (o : Office)
    → row.off_ramp ≡ true
    → (ledger_of (apply_to_payout mapped row event o).1 ≡ ledger_of o) ⊎ Agrees mapped row
unfolding apply_to_payout patch_status
apply_to_payout-guarded (some success_payment) row event o ramp =
    elim (Bool-cases row.stellar_confirmed) [
      | inl sure ↦ inr (inl (refl, sure))
      | inr unsure ↦ inl (ground arith)
    ]
apply_to_payout-guarded (some failed_payment) row event o ramp =
    elim (Bool-cases row.stellar_confirmed) [
      | inl sure ↦ inl (ground arith)
      | inr unsure ↦ inr (inr (refl, unsure))
    ]
apply_to_payout-guarded (some pending_payment) row event o ramp = inl refl
apply_to_payout-guarded none row event o ramp = inl refl

-- A webhook of Yellow Card about an off-ramp payout leaves the ledger as it is, unless the provider reports
-- a success and the receipt on chain has been confirmed, or a failure and it has not: after the
-- confirmation a failure gives nothing back, and before it a success spends nothing.
pub off_ramp_guarded :
    (mode : FundingMode) (net : Network) (conversion : Option JsNumber)
    (p : YellowCardWebhookPayload) (row : TxRow) (o : Office)
    → find_external (sequence_of p) o.desk.books.txs ≡ some row
    → row.direction ≡ payout
    → row.off_ramp ≡ true
    → (ledger_of (apply_infra_yellow_card_webhook mode net conversion p o).1 ≡ ledger_of o)
      ⊎ Agrees (resolve_wallet_status p) row
unfolding apply_infra_yellow_card_webhook apply_to_row
off_ramp_guarded mode net conversion p row o found is_payout_row ramp =
    elim (Bool-cases (is_empty (sequence_of p))) [
      | inl unnamed ↦ inl (rw (apply_infra_yellow_card_webhook, unnamed) refl)
      | inr named ↦
          let other : is_collection row.direction ≡ false = rw is_payout_row refl in
          let same : is_payout row.direction ≡ true = rw is_payout_row refl in
          elim (Bool-cases (is_receive_event (event_of p))) [
            | inl receives ↦ inl (
                rw (apply_infra_yellow_card_webhook, named, found, apply_to_row, other, receives)
                  refl)
            | inr sends ↦
                rw (apply_infra_yellow_card_webhook, named, found, apply_to_row, other, sends, same)
                  (apply_to_payout-guarded (resolve_wallet_status p) row (provider_event p) o ramp)
          ]
    ]

-- A webhook of Flutterwave leaves the ledger as it is, unless it finds a collection of the rail flutterwave
-- that is not settled, in naira, and the amount it reports is positive and within one unit of what is
-- expected.
pub flutterwave_guarded :
    (mode : FundingMode) (net : Network) (conversion : Option JsNumber) (c : Charge) (o : Office)
    → (ledger_of (apply_infra_flutterwave_webhook mode net conversion c o).1 ≡ ledger_of o)
      ⊎ ((row : TxRow) × (received : JsNumber) × (find_external (tx_ref_of c) o.desk.books.txs
            ≡ some row)
          × (is_collection row.direction && is_flutterwave row && is_naira c row ≡ true)
          × (positive c.amount ≡ some received)
          × (mismatches received row.amount ≡ false)
          × (is_settled row.status ≡ false))
unfolding apply_infra_flutterwave_webhook apply_charge patch_status
flutterwave_guarded mode net conversion c o = elim (Bool-cases (is_empty (tx_ref_of c))) [
  | inl unnamed ↦ inl (rw (apply_infra_flutterwave_webhook, unnamed) refl)
  | inr named ↦ elim (Option-cases (find_external (tx_ref_of c) o.desk.books.txs)) [
    | inl missing ↦ inl (rw (apply_infra_flutterwave_webhook, named, missing) refl)
    | inr (row, found) ↦
        elim (Bool-cases (is_collection row.direction && is_flutterwave row && is_naira c row)) [
          | inr other ↦ inl (rw (apply_infra_flutterwave_webhook, named, found, other) refl)
          | inl fits ↦ elim (Option-cases (positive c.amount)) [
            | inl invalid ↦ inl (
                rw (apply_infra_flutterwave_webhook, named, found, fits, apply_charge, invalid)
                  refl)
            | inr (received, valid) ↦ elim (Bool-cases (mismatches received row.amount)) [
              | inl far ↦ inl (
                  rw (apply_infra_flutterwave_webhook, named, found, fits, apply_charge, valid, far)
                    refl)
              | inr near ↦ elim (Bool-cases (is_settled row.status)) [
                | inl settled ↦ inl (
                    rw
                      (
                        apply_infra_flutterwave_webhook, named, found, fits, apply_charge, valid,
                        near, settled,
                      )
                      refl)
                | inr still_open ↦ inr (row, received, found, fits, valid, near, still_open)
              ]
            ]
          ]
        ]
  ]
]

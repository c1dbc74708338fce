-- ===== src/Lifecycle/Webhook/History.antt =====
-- Every history of webhooks, settlements of collections and calls on payouts, among any other writes of
-- the ledger.
use dayfi_backend.Base.{
  ◌≡◌, refl, arith, String, ◌&&◌, not, Option, some, none, List, [], ◌∷◌, ◌⊎◌, inl, inr, is_empty,
  Bool-cases, Option-cases,
}
use dayfi_backend.Ledger.Types.{JsNumber}
use dayfi_backend.Ledger.Store.{find_movement}
use dayfi_backend.Lifecycle.Types.{TxRow, find_tx, positive}
use dayfi_backend.Lifecycle.Payout.{
  payout_key, is_payout, finalize_payout_debit, release_payout_lock,
}
use dayfi_backend.Lifecycle.Payout.Exclusive.{Synced}
use dayfi_backend.Lifecycle.Payout
use dayfi_backend.Lifecycle.Payout.History.{finalize, release, after-Synced}
use dayfi_backend.Lifecycle.Funding.{FundingMode, Network}
use dayfi_backend.Lifecycle.Collection.{is_collection, is_settled, settle_collection_credit}
use dayfi_backend.Lifecycle.YellowCard.{
  WalletStatus, success_payment, failed_payment, pending_payment, YellowCardWebhookPayload,
  resolve_wallet_status, event_of, is_receive_event,
}
use dayfi_backend.Lifecycle.Webhook.{
  Office, find_external, sequence_of, provider_event, set_books, patch_status, credit_collection,
  apply_to_collection, complete_off_ramp, finalize_by_webhook, release_by_webhook, apply_to_payout,
  apply_to_row, apply_infra_yellow_card_webhook, Charge, tx_ref_of, mismatches, apply_charge,
  is_flutterwave, is_naira, apply_infra_flutterwave_webhook,
}
use dayfi_backend.Lifecycle.Webhook.Kept.{shape, update_txs-Synced, settle_collection_credit-Synced}

-- The flags of payouts agree with the movements.
abbrev pub Sound : Office → Type 0
Sound o = Synced o.desk.books

patch_status-Sound : (id status : String) (o : Office) → Sound o → Sound (patch_status id status o)
unfolding patch_status
patch_status-Sound id status o sound =
    update_txs-Synced id (λ r. record r { status = status }) o.desk.books (λ r. (refl, refl, refl))
      sound

credit_collection-Sound :
    (mode : FundingMode) (net : Network) (conversion : Option JsNumber) (row : TxRow) (o : Office)
    → Sound o
    → Sound (credit_collection mode net conversion row o).1
unfolding credit_collection
credit_collection-Sound mode net conversion row o sound =
    let kept = settle_collection_credit-Synced mode net row.org_id row.id conversion o.desk sound in
    elim (shape (settle_collection_credit mode net row.org_id row.id conversion o.desk).0) [
      | inl (e, failed) ↦ rw (credit_collection, failed) kept
      | inr (c, done) ↦ rw (credit_collection, done) kept
    ]

apply_to_collection-Sound :
    (mode : FundingMode) (net : Network) (conversion : Option JsNumber)
    (mapped : Option WalletStatus) (row : TxRow) (o : Office)
    → Sound o
    → Sound (apply_to_collection mode net conversion mapped row o).1
unfolding apply_to_collection
apply_to_collection-Sound mode net conversion (some success_payment) row o sound =
    credit_collection-Sound mode net conversion row o sound
apply_to_collection-Sound mode net conversion (some failed_payment) row o sound =
    elim (Bool-cases (is_settled row.status)) [
      | inl settled ↦ rw (apply_to_collection, settled) sound
      | inr open_still ↦
          rw (apply_to_collection, open_still) (patch_status-Sound row.id "failed" o sound)
    ]
apply_to_collection-Sound mode net conversion (some pending_payment) row o sound = sound
apply_to_collection-Sound mode net conversion none row o sound = sound

complete_off_ramp-Sound :
    (row : TxRow) (event : String) (o : Office) → Sound o → Sound (complete_off_ramp row event o)
unfolding complete_off_ramp patch_status
complete_off_ramp-Sound row event o sound = elim (Bool-cases row.off_ramp) [
  | inl ramp ↦ rw (complete_off_ramp, ramp) (patch_status-Sound row.id "settled" o sound)
  | inr direct ↦ rw (complete_off_ramp, direct) sound
]

finalize_by_webhook-Sound :
    (row : TxRow) (event : String) (o : Office)
    → Sound o
    → Sound (finalize_by_webhook row event o).1
unfolding finalize_by_webhook Payout.History.after
finalize_by_webhook-Sound row event o sound =
    let x = finalize_payout_debit row.id none o.desk.books in
    let kept : Synced x.1 = after-Synced (finalize row.id none) o.desk.books sound in
    elim (shape x.0) [
      | inr (posted, done) ↦
          rw (finalize_by_webhook, done) (complete_off_ramp-Sound row event (set_books x.1 o) kept)
      | inl (e, failed) ↦
          let same : (finalize_by_webhook row event o).1 ≡ set_books x.1 o = ground arith in
          rw same kept
    ]

release_by_webhook-Sound : (row : TxRow) (o : Office) → Sound o → Sound (release_by_webhook row o).1
unfolding release_by_webhook Payout.History.after
release_by_webhook-Sound row o sound =
    let x = release_payout_lock row.id none (some "failed") o.desk.books in
    let kept : Synced x.1 = after-Synced (release row.id none (some "failed")) o.desk.books sound in
    elim (shape x.0) [
      | inr (posted, done) ↦ rw (release_by_webhook, done) kept
      | inl (e, failed) ↦
          let same : (release_by_webhook row o).1 ≡ set_books x.1 o = ground arith in rw same kept
    ]

apply_to_payout-Sound :
    (mapped : Option WalletStatus) (row : TxRow) (event : String) (o : Office)
    → Sound o
    → Sound (apply_to_payout mapped row event o).1
unfolding apply_to_payout patch_status finalize_by_webhook complete_off_ramp release_by_webhook
apply_to_payout-Sound (some success_payment) row event o sound =
    elim (Bool-cases row.funds_released) [
      | inl late ↦ rw (apply_to_payout, late) sound
      | inr in_time ↦ elim (Bool-cases (row.off_ramp && not row.stellar_confirmed)) [
        | inl waits ↦ rw (apply_to_payout, in_time, waits) sound
        | inr goes ↦
            rw (apply_to_payout, in_time, goes) (finalize_by_webhook-Sound row event o sound)
      ]
    ]
apply_to_payout-Sound (some failed_payment) row event o sound =
    elim (Bool-cases row.funds_finalized) [
      | inl late ↦ rw (apply_to_payout, late) sound
      | inr in_time ↦ elim (Bool-cases (row.off_ramp && row.stellar_confirmed)) [
        | inl retry ↦
            rw (apply_to_payout, in_time, retry) (patch_status-Sound row.id "processing" o sound)
        | inr goes ↦ rw (apply_to_payout, in_time, goes) (release_by_webhook-Sound row o sound)
      ]
    ]
apply_to_payout-Sound (some pending_payment) row event o sound = sound
apply_to_payout-Sound none row event o sound = sound

apply_to_row-Sound :
    (mode : FundingMode) (net : Network) (conversion : Option JsNumber)
    (p : YellowCardWebhookPayload) (row : TxRow) (o : Office)
    → Sound o
    → Sound (apply_to_row mode net conversion p row o).1
unfolding apply_to_row
apply_to_row-Sound mode net conversion p row o sound =
    elim (Bool-cases (is_collection row.direction)) [
      | inl collects ↦
          rw (apply_to_row, collects)
            (apply_to_collection-Sound mode net conversion (resolve_wallet_status p) row o sound)
      | inr other ↦ elim (Bool-cases (is_receive_event (event_of p))) [
        | inl receives ↦ rw (apply_to_row, other, receives) sound
        | inr sends ↦ elim (Bool-cases (is_payout row.direction)) [
          | inl pays ↦
              rw (apply_to_row, other, sends, pays)
                (apply_to_payout-Sound (resolve_wallet_status p) row (provider_event p) o sound)
          | inr neither ↦ rw (apply_to_row, other, sends, neither) sound
        ]
      ]
    ]

apply_charge-Sound :
    (mode : FundingMode) (net : Network) (conversion : Option JsNumber) (c : Charge) (row : TxRow)
    (o : Office)
    → Sound o
    → Sound (apply_charge mode net conversion c row o).1
unfolding apply_charge
apply_charge-Sound mode net conversion c row o sound = elim (Option-cases (positive c.amount)) [
  | inl invalid ↦ rw (apply_charge, invalid) sound
  | inr (received, valid) ↦ elim (Bool-cases (mismatches received row.amount)) [
    | inl far ↦ rw (apply_charge, valid, far) (patch_status-Sound row.id row.status o sound)
    | inr near ↦ elim (Bool-cases (is_settled row.status)) [
      | inl settled ↦ rw (apply_charge, valid, near, settled) sound
      | inr open_still ↦
          rw (apply_charge, valid, near, open_still)
            (credit_collection-Sound mode net conversion row o sound)
    ]
  ]
]

yellow_card-Sound :
    (mode : FundingMode) (net : Network) (conversion : Option JsNumber)
    (p : YellowCardWebhookPayload) (o : Office)
    → Sound o
    → Sound (apply_infra_yellow_card_webhook mode net conversion p o).1
unfolding apply_infra_yellow_card_webhook apply_to_row
yellow_card-Sound mode net conversion p o sound = elim (Bool-cases (is_empty (sequence_of p))) [
  | inl unnamed ↦ rw (apply_infra_yellow_card_webhook, unnamed) sound
  | inr named ↦ elim (Option-cases (find_external (sequence_of p) o.desk.books.txs)) [
    | inl missing ↦ rw (apply_infra_yellow_card_webhook, named, missing) sound
    | inr (row, found) ↦
        rw (apply_infra_yellow_card_webhook, named, found)
          (apply_to_row-Sound mode net conversion p row o sound)
  ]
]

flutterwave-Sound :
    (mode : FundingMode) (net : Network) (conversion : Option JsNumber) (c : Charge) (o : Office)
    → Sound o
    → Sound (apply_infra_flutterwave_webhook mode net conversion c o).1
unfolding apply_infra_flutterwave_webhook
flutterwave-Sound mode net conversion c o sound = elim (Bool-cases (is_empty (tx_ref_of c))) [
  | inl unnamed ↦ rw (apply_infra_flutterwave_webhook, unnamed) sound
  | inr named ↦ elim (Option-cases (find_external (tx_ref_of c) o.desk.books.txs)) [
    | inl missing ↦ rw (apply_infra_flutterwave_webhook, named, missing) sound
    | inr (row, found) ↦
        elim (Bool-cases (is_collection row.direction && is_flutterwave row && is_naira c row)) [
          | inr other ↦ rw (apply_infra_flutterwave_webhook, named, found, other) sound
          | inl fits ↦
              rw (apply_infra_flutterwave_webhook, named, found, fits)
                (apply_charge-Sound mode net conversion c row o sound)
        ]
  ]
]

-- A webhook, the settlement of a collection, or a call on a payout or another write of the ledger.
pub data Event : Type 0 where
  yellow_card : FundingMode → Network → Option JsNumber → YellowCardWebhookPayload → Event
  flutterwave : FundingMode → Network → Option JsNumber → Charge → Event
  settle : FundingMode → Network → String → String → Option JsNumber → Event
  call : Payout.History.Event → Event

-- The tables after the event, whatever it answers.
unfoldable pub after : Event → Office → Office
after (yellow_card mode net conversion p) o =
    (apply_infra_yellow_card_webhook mode net conversion p o).1
after (flutterwave mode net conversion c) o =
    (apply_infra_flutterwave_webhook mode net conversion c o).1
after (settle mode net org id conversion) o = record o {
  desk = (settle_collection_credit mode net org id conversion o.desk).1;
}
after (call e) o = set_books (Payout.History.after e o.desk.books) o

-- The tables after the events, the last event first.
unfoldable pub offices : List Event → Office → Office
offices [] o = o
offices (e ∷ es) o = after e (offices es o)

pub after-Sound : (e : Event) (o : Office) → Sound o → Sound (after e o)
unfolding after
after-Sound (yellow_card mode net conversion p) o sound =
    yellow_card-Sound mode net conversion p o sound
after-Sound (flutterwave mode net conversion c) o sound =
    flutterwave-Sound mode net conversion c o sound
after-Sound (settle mode net org id conversion) o sound =
    settle_collection_credit-Synced mode net org id conversion o.desk sound
after-Sound (call e) o sound = after-Synced e o.desk.books sound

offices-Sound : (es : List Event) (o : Office) → Sound o → Sound (offices es o)
unfolding offices
offices-Sound [] o sound = sound
offices-Sound (e ∷ es) o sound = after-Sound e (offices es o) (offices-Sound es o sound)

-- Start from tables whose flags agree with the movements. After any history of webhooks, settlements of
-- collections, calls on payouts and other writes of the ledger, one after the other, no payout has both
-- been spent and been given back: at least one of the two movements is missing.
never_both :
    (es : List Event) (o : Office) (id : String) (row : TxRow)
    → Synced o.desk.books
    → find_tx id none (offices es o).desk.books.txs ≡ some row
    → (find_movement (payout_key row.id ":finalize") (offices es o).desk.books.ledger.movements
        ≡ none)
      ⊎ (find_movement (payout_key row.id ":release") (offices es o).desk.books.ledger.movements
          ≡ none)
never_both es o id row synced found =
    let (spent, returned, apart) = offices-Sound es o synced id row found in ground arith

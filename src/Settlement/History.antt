-- ===== src/Settlement/History.antt =====
-- Every history of settlements of payouts on the Stellar network, among webhooks, collections, calls on
-- payouts and other writes of the ledger.
use dayfi_backend.Base.{
  ◌≡◌, arith, String, Option, none, some, List, [], ◌∷◌, ◌⊎◌, inl, inr, Option-cases,
}
use dayfi_backend.Ledger.Store.{find_movement}
use dayfi_backend.Lifecycle.Types.{TxRow, find_tx}
use dayfi_backend.Lifecycle.Payout.{payout_key}
use dayfi_backend.Lifecycle.Payout.Exclusive.{Synced}
use dayfi_backend.Lifecycle.Payout
use dayfi_backend.Lifecycle.Payout.History.{finalize, release, after-Synced}
use dayfi_backend.Lifecycle.Webhook.{Office, set_books}
use dayfi_backend.Lifecycle.Webhook.History.{after-Sound}
use dayfi_backend.Lifecycle.Webhook
use dayfi_backend.Settlement.{
  SettlementRow, Sent, Till, Verified, SettlementError, confirm_and_finalize, fail_settlement,
  confirm_stellar_settlement,
}
use dayfi_backend.Settlement.Confirm.{confirm_and_finalize-till}
use dayfi_backend.Settlement.Checks.{Services, find_payout, check_payout}
use dayfi_backend.Settlement.Submit.{settle_payout_on_stellar}
use dayfi_backend.Settlement.Submit.Outcomes.{fail_settlement-till, confirm_stellar_settlement-Kept}
use dayfi_backend.Settlement.Submit.Steps.{Checked-cases, place_settlement-After}

-- The flags of payouts agree with the movements.
abbrev SoundTill : Till → Type 0
SoundTill t = Synced t.books

confirms :
    (org : String) (s : SettlementRow) (hash : Option String) (t : Till)
    → SoundTill t
    → SoundTill (confirm_and_finalize org s hash t).1
unfolding Payout.History.after
confirms org s hash t sound =
    rw (confirm_and_finalize-till org s hash t)
      (after-Synced (finalize s.payout_transaction_id (some org)) t.books sound)

fails :
    (org : String) (s : SettlementRow) (reason : String) (e : SettlementError) (t : Till)
    → SoundTill t
    → SoundTill (fail_settlement org s reason e t).1
unfolding Payout.History.after
fails org s reason e t sound =
    rw (fail_settlement-till org s reason e t)
      (after-Synced (release s.payout_transaction_id (some org) (some "failed")) t.books sound)

settle_payout_on_stellar-Sound :
    (v : Services) (org id : String) (secret : Option String) (fresh : String) (t : Till)
    → SoundTill t
    → SoundTill (settle_payout_on_stellar v org id secret fresh t).1
unfolding settle_payout_on_stellar
settle_payout_on_stellar-Sound v org id secret fresh t sound =
    elim (Option-cases (find_payout org id t.books.txs)) [
      | inl missing ↦ rw (settle_payout_on_stellar, missing) sound
      | inr (row, found) ↦ elim (Checked-cases (check_payout v row t)) [
        | inl (x, stopped) ↦ rw (settle_payout_on_stellar, found, stopped) sound
        | inr ((address, amount), ok) ↦
            rw (settle_payout_on_stellar, found, ok)
              (place_settlement-After v org row address amount secret SoundTill SoundTill
                (λ u same. same) (λ u rows same. same) (λ u rows same. same) confirms fails fresh t
                sound)
      ]
    ]

-- All tables, and the payments sent on the network.
pub record World : Type 0 where
  pub office : Office
  pub settlements : List SettlementRow
  pub sent : List Sent

abbrev pub till_of : World → Till
till_of w = record { books = w.office.desk.books; settlements = w.settlements; sent = w.sent }

abbrev pub put_till : Till → World → World
put_till t w = record {
  office = set_books t.books w.office;
  settlements = t.settlements;
  sent = t.sent;
}

-- A call to settle a payout or to confirm a settlement, or something else.
pub data Event : Type 0 where
  settle_on_chain : Services → String → String → Option String → String → Event
  confirm : String → String → (String → Verified) → Event
  elsewhere : Webhook.History.Event → Event

-- What there is after the event, whatever it answers.
unfoldable pub after : Event → World → World
after (settle_on_chain v org id secret fresh) w =
    put_till (settle_payout_on_stellar v org id secret fresh (till_of w)).1 w
after (confirm org id verify) w =
    put_till (confirm_stellar_settlement org id verify (till_of w)).1 w
after (elsewhere e) w = record w { office = Webhook.History.after e w.office }

-- What there is after the events, the last event first.
unfoldable pub worlds : List Event → World → World
worlds [] w = w
worlds (e ∷ es) w = after e (worlds es w)

after-SoundWorld : (e : Event) (w : World) → SoundTill (till_of w) → SoundTill (till_of (after e w))
unfolding after
after-SoundWorld (settle_on_chain v org id secret fresh) w sound =
    settle_payout_on_stellar-Sound v org id secret fresh (till_of w) sound
after-SoundWorld (confirm org id verify) w sound =
    confirm_stellar_settlement-Kept SoundTill confirms fails org id verify (till_of w) sound
after-SoundWorld (elsewhere e) w sound = after-Sound e w.office sound

worlds-Sound :
    (es : List Event) (w : World) → SoundTill (till_of w) → SoundTill (till_of (worlds es w))
unfolding worlds
worlds-Sound [] w sound = sound
worlds-Sound (e ∷ es) w sound = after-SoundWorld e (worlds es w) (worlds-Sound es w sound)

-- Start from tables whose flags agree with the movements. After any history of settlements of payouts on
-- the network and their confirmations, whatever the network answers, of webhooks, settlements of
-- collections, calls on payouts and other writes of the ledger, one after the other, the ledger lacks the
-- movement that debits a payout for good or the one that gives it back: it never holds both. Nothing is
-- said of the payments that are sent on the network.
pub debited_or_released :
    (es : List Event) (w : World) (id : String) (row : TxRow)
    → Synced w.office.desk.books
    → find_tx id none (worlds es w).office.desk.books.txs ≡ some row
    → (find_movement
          (payout_key row.id ":finalize")
          (worlds es w).office.desk.books.ledger.movements
        ≡ none)
      ⊎ (find_movement
            (payout_key row.id ":release")
            (worlds es w).office.desk.books.ledger.movements
          ≡ none)
debited_or_released es w id row synced found =
    let (spent, returned, apart) = worlds-Sound es w synced id row found in ground arith

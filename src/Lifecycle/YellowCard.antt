-- ===== src/Lifecycle/YellowCard.antt =====
-- src/modules/payment/yellowCardStatus.ts, and the reading of a webhook's status in
-- src/modules/payment/yellowCardWebhook.ts.
use Prim.Native.Char.{code}
use text.Mathlib.Text.{starts_with}
use dayfi_backend.Base.{
  String, Bool, ◌||◌, Option, none, some, ◌==◌, or_else, trim, to_lower, to_upper, is_empty, str_eq,
  if◌then◌else◌,
}
use Prim.Native.String.{char_at}

-- The statuses of a wallet transaction that a provider status is mapped to.
pub data WalletStatus : Type 0 where
  success_payment failed_payment pending_payment : WalletStatus

pub record YellowCardWebhookPayload : Type 0 where
  pub id : Option String
  pub sequence_id : Option String
  pub status : Option String
  pub event : Option String

-- `s.includes(t)`
unfoldable pub includes : String → String → Bool
includes String.[] t = is_empty t
includes (String.◌∷◌ c s) t = starts_with (String.◌∷◌ c s) t || includes s t

-- `s.endsWith(t)`
unfoldable pub ends_with : String → String → Bool
ends_with String.[] t = is_empty t
ends_with (String.◌∷◌ c s) t = str_eq (String.◌∷◌ c s) t || ends_with s t

-- `s.replace(/_/g, '-')`
unfoldable pub underscores_to_dashes : String → String
underscores_to_dashes String.[] = ""
underscores_to_dashes (String.◌∷◌ c s) =
    String.◌∷◌ (if code c == b'_' then char_at "-" 0 else c) (underscores_to_dashes s)

abbrev pub is_complete : String → Bool
is_complete s =
    str_eq s "complete"
    || str_eq s "completed"
    || includes s "settlement-complete"
    || includes s "settlement_complete"

abbrev pub is_failure : String → Bool
is_failure s =
    includes s "fail"
    || includes s "reject"
    || includes s "cancel"
    || includes s "declin"
    || includes s "expired"
    || includes s "refund-failed"

abbrev pub is_success : String → Bool
is_success s =
    includes s "complete" || includes s "success" || includes s "settled" || str_eq s "paid"

-- `mapYellowCardProviderStatus`: what is neither a success nor a failure is pending.
unfoldable pub map_yellow_card_provider_status : String → WalletStatus
map_yellow_card_provider_status status =
    let s = underscores_to_dashes (to_lower (trim status)) in
    if is_empty s
    then pending_payment
    else if is_complete s
    then success_payment
    else if is_failure s
    then failed_payment
    else if is_success s
    then success_payment
    else pending_payment

unfoldable pub status_of_event : String → Option WalletStatus
status_of_event event =
    if ends_with event ".COMPLETE"
    then some success_payment
    else if ends_with event ".FAILED" || ends_with event ".EXPIRED"
    then some failed_payment
    else if includes event "PENDING" || includes event "PROCESSING" || includes event "PROCESS"
    then some pending_payment
    else none

abbrev pub event_of : YellowCardWebhookPayload → String
event_of p = trim (elim p.event [ some e ↦ e | none ↦ "" ])

-- `resolveWalletStatusFromYellowCardWebhook`
unfoldable pub resolve_wallet_status : YellowCardWebhookPayload → Option WalletStatus
resolve_wallet_status p =
    let status = or_else p.status "" in
    if is_empty status
    then status_of_event (to_upper (event_of p))
    else some (map_yellow_card_provider_status status)

-- `isYellowCardSendWebhookEvent`
unfoldable pub is_send_event : String → Bool
is_send_event event = let e = to_upper event in starts_with e "PAYMENT." || starts_with e "SEND."

-- `isYellowCardReceiveWebhookEvent`
unfoldable pub is_receive_event : String → Bool
is_receive_event event =
    let e = to_upper event in starts_with e "COLLECTION." || starts_with e "RECEIVE."

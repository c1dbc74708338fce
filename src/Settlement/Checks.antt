-- ===== src/Settlement/Checks.antt =====
-- The checks of `settlePayoutOnStellar` before a payment is sent, and the keys that it is signed with. What
-- other services answer is an argument: the destination of a payout, the wallets and keys of organizations,
-- and the network.
use Prim.Native.Char.{code}
use dayfi_backend.Base.{
  ℕ, ◌+◌, ◌-◌, String, Bool, true, false, ◌&&◌, ◌||◌, not, Option, none, some, List, [], ◌∷◌,
  is_null, leb, ltb, ◌==◌, or_null, or_else, trim, to_lower, str_eq, if◌then◌else◌,
}
use dayfi_backend.Base.Int.{pos, ltb_ℤ}
use dayfi_backend.Ledger.Types.{JsNumber, not_finite, finite, sub_units}
use dayfi_backend.Lifecycle.Types.{TxRow, as_env, positive, find_tx}
use dayfi_backend.Lifecycle.Payout.{is_payout}
use dayfi_backend.Settlement.{
  SettlementRow, Till, SettlementError, unsupported_method, not_locked, payout_finalized,
  no_destination, unsupported_network, unsupported_asset, invalid_address, self_transfer,
  invalid_amount, mainnet_blocked, insufficient_onchain_balance, org_wallet_unavailable, Answer,
  settled_as, refused, Verified,
}

pub data PayoutMode : Type 0 where
  off mock live : PayoutMode

-- `getInfraStellarPayoutMode`, by the setting.
unfoldable pub payout_mode : Option String → PayoutMode
payout_mode setting =
    let raw = to_lower (trim (or_else setting "off")) in
    if str_eq raw "mock" then mock else if str_eq raw "live" then live else off

abbrev pub is_off : PayoutMode → Bool
is_off off = true
is_off mock = false
is_off live = false

abbrev pub is_live : PayoutMode → Bool
is_live off = false
is_live mock = false
is_live live = true

-- What `resolvePayoutDestination` gives.
pub record Destination : Type 0 where
  pub address : String
  pub asset : String
  pub network : String

-- What `submitUsdcPayment` gives, and throws.
pub record Payment : Type 0 where
  pub source_account : String
  pub destination_account : String
  pub transaction_hash : String
  pub is_mock : Bool
  pub has_ledger_sequence : Bool
  pub final_status : String

pub data Submitted : Type 0 where
  accepted : Payment → Submitted
  rejected : String → Submitted

pub record Keys : Type 0 where
  pub secret : String
  pub public_key : String

-- The settings and what the other services answer; the balance is a count of 10^-14.
pub record Services : Type 0 where
  pub setting : Option String
  pub is_testnet : Bool
  pub find_destination : TxRow → Option Destination
  pub own_wallet : String → String → Option String
  pub signing_keys : String → String → Option Keys
  pub public_key_of : String → String
  pub usdc_balance : String → ℕ
  pub submit : String → JsNumber → Option String → Submitted
  pub verify : String → Verified

-- A check that passes with a value, or ends the call.
pub data Checked (A : Type 0) : Type 0 where
  passes : A → Checked A
  stops : Answer → Checked A

infixl 5 ◌>>=◌
unfoldable pub ◌>>=◌ : {A B : Type 0} → Checked A → (A → Checked B) → Checked B
passes a >>= f = f a
stops x >>= f = stops x

unfoldable pub require : Bool → SettlementError → Checked (Unit {0})
require true e = passes tt
require false e = stops (refused e)

-- `loadPayout`
unfoldable pub find_payout : String → String → List TxRow → Option TxRow
find_payout org id rs = elim (find_tx id none rs) [
  | none ↦ none
  | some r ↦ if str_eq org r.org_id && is_payout r.direction then some r else none
]

abbrev pub is_locked : TxRow → Bool
is_locked row =
    row.has_lock_id
    || row.funds_locked
    || (not (is_null (elim row.usdc_amount [ some n ↦ positive n | none ↦ none ]))
        && not row.funds_released
        && not row.funds_finalized)

-- `getSettlementForPayout`: the newest row comes first.
unfoldable pub find_for_payout : String → String → List SettlementRow → Option SettlementRow
find_for_payout org id [] = none
find_for_payout org id (r ∷ rs) =
    if str_eq org r.org_id && str_eq id r.payout_transaction_id
    then some r
    else find_for_payout org id rs

unfoldable pub find_by_key : String → String → List SettlementRow → Option SettlementRow
find_by_key org key [] = none
find_by_key org key (r ∷ rs) =
    if str_eq org r.org_id && str_eq key r.idempotency_key then some r else find_by_key org key rs

-- `[A-Z0-9]{n}`, up to the end.
unfoldable pub has_symbols : ℕ → String → Bool
has_symbols n String.[] = n == 0
has_symbols n (String.◌∷◌ c s) =
    ltb 0 n
    && (leb b'A' (code c) && leb (code c) b'Z' || leb b'0' (code c) && leb (code c) b'9')
    && has_symbols (n - 1) s

-- The test of `assertStellarAddress`.
unfoldable pub is_address : String → Bool
is_address String.[] = false
is_address (String.◌∷◌ c s) = code c == b'G' && has_symbols 55 s

-- What is done about a payout that has been finalized already.
abbrev pub settled_before : TxRow → Till → Answer
settled_before row t = elim (find_for_payout row.org_id row.id t.settlements) [
  | none ↦ refused payout_finalized
  | some s ↦ if str_eq s.status "confirmed" then settled_as s else refused payout_finalized
]

unfoldable pub not_finalized : TxRow → Till → Checked (Unit {0})
not_finalized row t = if row.funds_finalized then stops (settled_before row t) else passes tt

unfoldable pub destination_of : Services → TxRow → Checked Destination
destination_of v row = elim (v.find_destination row) [
  | some d ↦ passes d
  | none ↦ stops (refused no_destination)
]

abbrev pub is_own : Services → TxRow → String → Bool
is_own v row address = elim (v.own_wallet row.org_id (as_env row.environment)) [
  | none ↦ false
  | some key ↦ not (is_off (payout_mode v.setting)) && str_eq address key
]

-- `num(meta.usdcAmount ?? payout.amount)`, if it is positive.
abbrev pub payable : TxRow → Option JsNumber
payable row = elim row.usdc_amount [ some n ↦ positive n | none ↦ positive row.amount ]

unfoldable pub amount_of : TxRow → Checked JsNumber
amount_of row = elim (payable row) [ some n ↦ passes n | none ↦ stops (refused invalid_amount) ]

-- The checks of the destination, which give the address to pay.
unfoldable pub check_destination : Services → TxRow → Checked String
check_destination v row = do
  d ← destination_of v row
  stellar ← require (str_eq d.network "stellar") unsupported_network
  usdc ← require (str_eq d.asset "USDC") unsupported_asset
  valid ← require (is_address (trim d.address)) invalid_address
  other ← require (not (is_own v row (trim d.address))) self_transfer
  passes (trim d.address)

-- The checks before the settlement is looked up: the address to pay, and the amount.
unfoldable pub check_payout : Services → TxRow → Till → Checked (String × JsNumber)
check_payout v row t = do
  is_crypto ← require (str_eq row.method "crypto") unsupported_method
  locked ← require (is_locked row) not_locked
  open_still ← not_finalized row t
  address ← check_destination v row
  amount ← amount_of row
  passes (address, amount)

-- `onChain + 1e-7 < usdcAmount`
abbrev pub falls_short : ℕ → JsNumber → Bool
falls_short n not_finite = false
falls_short n (finite x) = ltb_ℤ (pos (n + sub_units)) x

-- The keys of the organization's wallet, which has to hold the amount.
abbrev pub org_keys : Services → TxRow → JsNumber → Checked Keys
org_keys v row amount = elim (v.signing_keys row.org_id (as_env row.environment)) [
  | none ↦ stops (refused org_wallet_unavailable)
  | some k ↦
      if is_live (payout_mode v.setting) && falls_short (v.usdc_balance k.public_key) amount
      then stops (refused insufficient_onchain_balance)
      else passes k
]

-- `resolvePayoutSigning`: none stands for the treasury.
unfoldable pub resolve_payout_signing :
    Services → TxRow → JsNumber → Option String → Checked (Option Keys)
resolve_payout_signing v row amount secret = elim (or_null (some (trim (or_else secret "")))) [
  | some s ↦ passes (some (record { secret = s; public_key = v.public_key_of s }))
  | none ↦
      if is_off (payout_mode v.setting)
      then passes none
      else if is_live (payout_mode v.setting) && not v.is_testnet
      then stops (refused mainnet_blocked)
      else (org_keys v row amount >>= λ k. passes (some k))
]

-- The secret that the payment is signed with, if it is not the treasury's.
abbrev pub secret_of : Option Keys → Option String → Option String
secret_of (some k) given = some k.secret
secret_of none given = given

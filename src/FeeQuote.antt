-- ===== src/FeeQuote.antt =====
-- src/modules/infra/infraFeeService.ts: the settings, the quote of a transaction fee and the check that
-- a customer can pay it. Environment variables are arguments.
pub mod Sums
mod Tests
use Prim.Native.Char.{code}
use Prim.Native.String.{char_at}
use dayfi_backend.Base.{
  ℕ, String, Bool, true, false, ◌||◌, Option, none, some, [], ◌∷◌, ◌==◌, if◌then◌else◌, or_else,
  trim, to_upper, str_eq,
}
use dayfi_backend.Base.Int.{ℤ, pos, ltb_ℤ}
use dayfi_backend.Amount.{
  Text, RawAmount, text, Result, ok, invalid_amount, ◌>>=◌, parse_usdc_to_minor, format_usdc,
  add_minor, stellar_base_fee_xlm,
}

-- The codes of a text.
abbrev pub codes : String → Text
codes String.[] = []
codes (String.◌∷◌ c s) = code c ∷ codes s

pub data TransferSettlementMode : Type 0 where
  internal_ledger stellar_onchain : TransferSettlementMode

-- `s.replace(/-/g, '_')`
unfoldable pub dashes_to_underscores : String → String
dashes_to_underscores String.[] = ""
dashes_to_underscores (String.◌∷◌ c s) =
    String.◌∷◌ (if code c == b'-' then char_at "_" 0 else c) (dashes_to_underscores s)

-- `getTransferSettlementMode`
unfoldable pub get_transfer_settlement_mode : Option String → Option String → TransferSettlementMode
unfolding dashes_to_underscores trim to_upper
get_transfer_settlement_mode override env =
    let raw = dashes_to_underscores (to_upper (trim (or_else override (or_else env "")))) in
    if str_eq raw "STELLAR_ONCHAIN" || str_eq raw "ONCHAIN"
    then stellar_onchain
    else internal_ledger

-- The fields of `DayfiFeeQuote` that a quote computes.
pub record DayfiFeeQuote : Type 0 where
  pub fee_amount_usdc : Text
  pub transfer_amount : Text
  pub customer_debit_amount : Text
  pub fee_charged : Bool
  pub fee_policy_amount_usdc : Text
  pub fee_revenue_amount : Text
  pub estimated_network_fee_amount : Text

-- `getConfiguredFeeUsdcMinor`: a negative setting is no fee, and one that does not parse is 0.01.
unfoldable pub configured_fee_usdc_minor : Option String → ℤ
configured_fee_usdc_minor env =
    elim (parse_usdc_to_minor (text (codes (trim (or_else env "0.01"))))) [
      | ok n ↦ if ltb_ℤ n (pos 0) then pos 0 else n
      | invalid_amount ↦ pos 100000
    ]

abbrev pub positive_or_throw : ℤ → Result ℤ
positive_or_throw n = if ltb_ℤ (pos 0) n then ok n else invalid_amount

unfoldable pub quote_of : ℤ → ℤ → ℤ → DayfiFeeQuote
quote_of transfer policy fee = record {
  fee_amount_usdc = format_usdc fee;
  transfer_amount = format_usdc transfer;
  customer_debit_amount = format_usdc (add_minor transfer fee);
  fee_charged = ltb_ℤ (pos 0) fee;
  fee_policy_amount_usdc = format_usdc policy;
  fee_revenue_amount = format_usdc fee;
  estimated_network_fee_amount = stellar_base_fee_xlm.1;
}

unfoldable pub quote_dayfi_transaction_fee : Option String → RawAmount → Bool → Result DayfiFeeQuote
quote_dayfi_transaction_fee env transfer_amount charge_fee = do
  parsed ← parse_usdc_to_minor transfer_amount
  transfer ← positive_or_throw parsed
  let policy = configured_fee_usdc_minor env
  let fee = if charge_fee then policy else pos 0
  ok (quote_of transfer policy fee)

-- `assertCustomerCanPay`: whether the check passes; an amount that does not parse throws.
unfoldable pub customer_can_pay : RawAmount → RawAmount → RawAmount → Result Bool
customer_can_pay available_usdc transfer_amount fee_amount_usdc = do
  available ← parse_usdc_to_minor available_usdc
  transfer ← parse_usdc_to_minor transfer_amount
  fee ← parse_usdc_to_minor fee_amount_usdc
  ok (if ltb_ℤ available (add_minor transfer fee) then false else true)
